-- ===== src/Page/Insert.antt =====
-- `insert` and `get_slot` of src/page/mod.rs against the list of records that a page holds.
use db_rs.Base.{
  ℕ, ◌+◌, ◌-◌, ◌*◌, ◌≤◌, ◌<◌, ◌≡◌, refl, ap, inl, inr, arith, List, [], ◌∷◌, ◌++◌, some, length,
  get_elem?, lt_of_get_elem?, ge_of_get_elem?, Option-cases, splice, length-splice, length-append,
  be_bytes, be_value, length-be_bytes, be_value-be_bytes, le→leb, gt→leb, lt→ltb, ge→ltb, ok, err,
  read_slice_lem, copy_slice_lem, ◌>>=◌, ◌>>◌, guard, leb, page_full, u16_try_from, sub_u16,
}
use db_rs.Page.{
  PageBytes, header_size, entry_size, page_size, num_entries, entries_offset, set_num_entries,
  page_kind, kind_of_byte, get_slot, read_slot, get_slot_array_entry, get_freespace_start,
  insert_offset, write_record, insert, page_id,
}
use db_rs.Page.Written.{
  inserted, inserted_apart, inserted-Slot, length-inserted, count-inserted, inserted-Layout,
}
use db_rs.Page.Layout.{
  Holds-Slot, Slot, Holds, total, Layout-snoc, Layout-last, read_entry-Slot, total-append,
}

pub num_entries-Holds :
    {p : PageBytes} {rs : List (List ℕ)} → Holds p rs → num_entries p ≡ length rs
unfolding num_entries
num_entries-Holds {p} {rs} h =
    let f = h.fits in rw h.count (be_value-be_bytes 2 (length rs) (omega arith))

read_slot-Slot :
    {p : PageBytes} (i off : ℕ) (r : List ℕ)
    → length p ≡ page_size
    → off + length r ≤ page_size
    → Slot p i off r
    → read_slot (record { offset = off; size = length r }) p ≡ ok (some r)
unfolding read_slot
read_slot-Slot {p} i off r z b s = rw (
  lt→ltb (off + length r) 65536 (omega arith),
  read_slice_lem off (length r) p (omega arith),
  s.content,
)

get_slot-some :
    {p : PageBytes} {rs : List (List ℕ)} (i : ℕ) (r : List ℕ)
    → Holds p rs
    → get_elem? rs i ≡ some r
    → get_slot i p ≡ ok (some r)
unfolding get_slot
get_slot-some {p} {rs} i r h e =
    let (off, b, s) = Holds-Slot i r h e in
    let f = h.fits in
    let z = h.size in
    let inside : i < length rs = lt_of_get_elem? rs i e in
    rw (
      num_entries-Holds h,
      lt→ltb i (length rs) inside,
      read_entry-Slot i off r (omega arith) (omega arith) (omega arith) s,
      read_slot-Slot i off r z b s,
    )

-- A page that holds `rs` gives back the record of each slot, and `None` beyond the last.
pub get_slot-Holds :
    {p : PageBytes} {rs : List (List ℕ)} (i : ℕ) → Holds p rs → get_slot i p ≡ ok (get_elem? rs i)
get_slot-Holds {p} {rs} i h = elim (Option-cases (get_elem? rs i)) [
  | inl gone ↦ rw gone (
      unfold get_slot in rw (num_entries-Holds h, ge→ltb i (length rs) (ge_of_get_elem? rs i gone)))
  | inr (r, found) ↦ rw found (get_slot-some i r h found)
]

-- What `insert` computes before it writes.
pub get_freespace_start-Holds :
    {p : PageBytes} {rs : List (List ℕ)}
    → Holds p rs
    → get_freespace_start p ≡ ok (header_size + entry_size * length rs)
unfolding get_freespace_start
get_freespace_start-Holds {p} {rs} h = ground (arith, num_entries-Holds h, h.fits)

insert_offset-Holds :
    (p : PageBytes) (rs : List (List ℕ)) (size : ℕ)
    → Holds p rs
    → insert_offset size p ≡ (u16_try_from size >>= sub_u16 (page_size - total rs))
unfolding insert_offset get_slot_array_entry
insert_offset-Holds p [] size h = rw (num_entries-Holds h)
insert_offset-Holds p (r ∷ rs) size h =
    let f = h.fits in
    let z = h.size in
    let (last, b, s) = Layout-last p 0 page_size r rs (omega arith) h.layout in
    let e : length (r ∷ rs) - 1 ≡ 0 + length rs = omega arith in
    rw (
      num_entries-Holds h,
      lt→ltb 0 (length (r ∷ rs)) (omega arith),
      e,
      lt→ltb (0 + length rs) (length (r ∷ rs)) (omega arith),
      read_entry-Slot (0 + length rs) _ last (omega arith) (omega arith) (omega arith) s,
    )

write_record-Holds :
    (p : PageBytes) (rs : List (List ℕ)) (d : List ℕ)
    → Holds p rs
    → header_size + entry_size * (length rs + 1) + total rs + length d ≤ page_size
    → let off = page_size - total rs - length d in
      let fs = header_size + entry_size * length rs in
      let p' = inserted p fs off (length rs + 1) d in
      write_record fs off d p ≡ ok (p', record { page = page_id p'; slot = length rs })
unfolding write_record set_num_entries
write_record-Holds p rs d h room =
    let z = h.size in
    let fs : ℕ = header_size + entry_size * length rs in
    let off : ℕ = page_size - total rs - length d in
    let e : length (be_bytes 2 off ++ be_bytes 2 (length d)) ≡ 4 = omega (
      arith,
      length-append (be_bytes 2 off) (be_bytes 2 (length d)),
      length-be_bytes 2 off,
      length-be_bytes 2 (length d),
    ) in
    rw (
      num_entries-Holds h,
      lt→ltb (length d) 65536 (omega arith),
      copy_slice_lem fs (be_bytes 2 off ++ be_bytes 2 (length d)) p (omega arith),
      copy_slice_lem off d (splice fs (be_bytes 2 off ++ be_bytes 2 (length d)) p)
          (omega (arith, length-splice fs (be_bytes 2 off ++ be_bytes 2 (length d)) p)),
      lt→ltb (length rs + 1) 65536 (omega arith),
    )

Holds-inserted :
    (p : PageBytes) (rs : List (List ℕ)) (d : List ℕ)
    → Holds p rs
    → header_size + entry_size * (length rs + 1) + total rs + length d ≤ page_size
    → let off = page_size - total rs - length d in
      let fs = header_size + entry_size * length rs in
      Holds (inserted p fs off (length rs + 1) d) (rs ++ (d ∷ []))
Holds-inserted p rs d h room =
    let z = h.size in
    let fs : ℕ = header_size + entry_size * length rs in
    let off : ℕ = page_size - total rs - length d in
    let e : length rs + 1 ≡ length (rs ++ (d ∷ [])) = omega (arith, length-append rs (d ∷ [])) in
    record {
      size = length-inserted p fs off (length rs + 1) d z (omega arith) (omega arith) (omega arith);
      count =
          rw (← e)
            (count-inserted p fs off (length rs + 1) d z (omega arith) (omega arith) (omega arith));
      fits = omega (arith, length-append rs (d ∷ []), total-append rs (d ∷ []));
      layout =
          Layout-snoc _ 0 page_size rs d (length rs) off (omega arith) refl
            (inserted-Layout p fs off (length rs + 1) d z (omega arith) (omega arith) (omega arith)
              rs (omega arith) refl (omega arith) h.layout)
            (inserted-Slot p fs off (length rs + 1) d z (omega arith) (omega arith) (omega arith)
              (length rs) refl);
    }

-- `insert` up to its writes, in terms of the records of the page.
insert-eq :
    (p : PageBytes) (rs : List (List ℕ)) (d : List ℕ)
    → Holds p rs
    → insert d p ≡ (
        u16_try_from (length d) >>= sub_u16 (page_size - total rs) >>= λ off.
        guard (leb (header_size + entry_size * length rs + entry_size) off) page_full
        >> write_record (header_size + entry_size * length rs) off d p)
unfolding insert
insert-eq p rs d h =
    let f = h.fits in
    rw (
      get_freespace_start-Holds h,
      lt→ltb (header_size + entry_size * length rs + entry_size) 65536 (omega arith),
      insert_offset-Holds p rs (length d) h,
    )

-- A record fits a page that holds `rs` if its bytes and its entry fit the free space.
abbrev pub Fits : List (List ℕ) → List ℕ → Type 0
Fits rs d = header_size + entry_size * (length rs + 1) + total rs + length d ≤ page_size

-- A page that holds `rs`, and has room for a record and its entry, takes the record: `insert`
-- returns the page's number and the next slot, the page then holds `rs` with the record at the
-- end, and its number and its kind stay.
pub insert-Holds :
    (p : PageBytes) (rs : List (List ℕ)) (d : List ℕ)
    → Holds p rs
    → Fits rs d
    → (p' : PageBytes) × (insert d p ≡ ok (p', record { page = page_id p; slot = length rs }))
      × Holds p' (rs ++ (d ∷ []))
      × (page_id p' ≡ page_id p)
      × (page_kind p' ≡ page_kind p)
insert-Holds p rs d h room =
    let z = h.size in
    let fs : ℕ = header_size + entry_size * length rs in
    let off : ℕ = page_size - total rs - length d in
    let p' : PageBytes = inserted p fs off (length rs + 1) d in
    let same = λ (c k : ℕ) (x : c + k ≤ entries_offset).
      inserted_apart p fs off (length rs + 1) d z (omega arith) (omega arith) (omega arith) c k
        (inl x) (inl (omega arith)) (inl (omega arith)) in
    let e : page_id p' ≡ page_id p = unfold page_id in ap be_value (same 0 8 (omega arith)) in
    (
      p',
      rw (
        insert-eq p rs d h,
        lt→ltb (length d) 65536 (omega arith),
        le→leb (length d) (page_size - total rs) (omega arith),
        le→leb (header_size + entry_size * length rs + entry_size) (page_size - total rs - length d)
            (omega arith),
        write_record-Holds p rs d h room,
        e,
      ),
      Holds-inserted p rs d h room,
      e,
      unfold page_kind in ap kind_of_byte (same 8 1 (omega arith)),
    )

-- A page that holds `rs`, and whose free space takes the record but not its entry too, answers
-- `PageFull`.
pub insert_full :
    (p : PageBytes) (rs : List (List ℕ)) (d : List ℕ)
    → Holds p rs
    → ¬ Fits rs d
    → total rs + length d ≤ page_size
    → insert d p ≡ err page_full
insert_full p rs d h no_room short = rw (
  insert-eq p rs d h,
  lt→ltb (length d) 65536 (omega arith),
  le→leb (length d) (page_size - total rs) (omega arith),
  gt→leb (header_size + entry_size * length rs + entry_size) (page_size - total rs - length d)
      (omega arith),
)
