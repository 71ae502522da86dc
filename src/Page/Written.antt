-- ===== src/Page/Written.antt =====
-- The bytes of a page after the writes of `insert`, src/page/mod.rs.
use db_rs.Base.{
  ℕ, ◌+◌, ◌-◌, ◌*◌, ◌≤◌, ◌≡◌, ap, ◌∙◌, ◌⊎◌, inl, inr, arith, List, ◌++◌, length, slice, splice,
  length-splice, slice-splice_apart, slice-splice_self, slice-splice_eq, splice-append,
  length-append, be_bytes, length-be_bytes, subst,
}
use db_rs.Page.{PageBytes, header_size, entry_size, page_size, entries_offset}
use db_rs.Page.Layout.{Slot, Layout, total, Layout-splice}

-- The page after `insert` has put `d` at `off`, its entry at `fs` and the count at `n`.
abbrev pub inserted : PageBytes → ℕ → ℕ → ℕ → List ℕ → PageBytes
inserted p fs off n d =
    splice entries_offset (be_bytes 2 n)
      (splice off d (splice fs (be_bytes 2 off ++ be_bytes 2 (length d)) p))

module _ (p : PageBytes) (fs off n : ℕ) (d : List ℕ) (size : length p ≡ page_size)
    (low : header_size ≤ fs) (room : fs + entry_size ≤ off)
    (high : off + length d ≤ page_size) where
  abbrev pair : List ℕ
  pair = be_bytes 2 off ++ be_bytes 2 (length d)

  length-pair : length pair ≡ 4
  length-pair = omega (
    arith,
    length-append (be_bytes 2 off) (be_bytes 2 (length d)),
    length-be_bytes 2 off,
    length-be_bytes 2 (length d),
  )

  -- A part that `insert` does not write.
  pub inserted_apart :
      (c k : ℕ)
      → (c + k ≤ entries_offset) ⊎ (entries_offset + 2 ≤ c)
      → (c + k ≤ off) ⊎ (off + length d ≤ c)
      → (c + k ≤ fs) ⊎ (fs + 4 ≤ c)
      → slice c k (inserted p fs off n d) ≡ slice c k p
  inserted_apart c k x y z =
      slice-splice_apart c k entries_offset _ _ (omega (arith, length-be_bytes 2 n))
      ∙ slice-splice_apart c k off d _ y
      ∙ slice-splice_apart c k fs pair p (omega (arith, length-pair))

  offset_part : slice fs 2 (inserted p fs off n d) ≡ be_bytes 2 off
  offset_part =
      slice-splice_apart fs 2 entries_offset _ _ (omega (arith, length-be_bytes 2 n))
      ∙ slice-splice_apart fs 2 off d _ (omega arith)
      ∙ ap (slice fs 2) (
          splice-append fs (fs + 2) (be_bytes 2 off) (be_bytes 2 (length d)) p
            (omega (arith, length-be_bytes 2 off)))
      ∙ slice-splice_apart fs 2 (fs + 2) _ _ (omega arith)
      ∙ slice-splice_eq fs 2 _ p (length-be_bytes 2 off) (omega arith)

  size_part : slice (fs + 2) 2 (inserted p fs off n d) ≡ be_bytes 2 (length d)
  size_part =
      slice-splice_apart (fs + 2) 2 entries_offset _ _ (omega (arith, length-be_bytes 2 n))
      ∙ slice-splice_apart (fs + 2) 2 off d _ (omega arith)
      ∙ ap (slice (fs + 2) 2) (
          splice-append fs (fs + 2) (be_bytes 2 off) (be_bytes 2 (length d)) p
            (omega (arith, length-be_bytes 2 off)))
      ∙ slice-splice_eq (fs + 2) 2 _ _ (length-be_bytes 2 (length d))
          (omega (arith, length-splice fs (be_bytes 2 off) p))

  record_part : slice off (length d) (inserted p fs off n d) ≡ d
  record_part =
      slice-splice_apart off (length d) entries_offset _ _ (omega (arith, length-be_bytes 2 n))
      ∙ slice-splice_self off d _ (omega (arith, length-splice fs pair p))

  -- The new entry and the new record.
  pub inserted-Slot :
      (i : ℕ) → fs ≡ header_size + entry_size * i → Slot (inserted p fs off n d) i off d
  inserted-Slot i e = record {
    offset_bytes = subst (λ k. slice k 2 (inserted p fs off n d) ≡ be_bytes 2 off) e offset_part;
    size_bytes =
        subst (λ k. slice (k + 2) 2 (inserted p fs off n d) ≡ be_bytes 2 (length d)) e size_part;
    content = record_part;
  }

  pub length-inserted : length (inserted p fs off n d) ≡ page_size
  length-inserted =
      length-splice entries_offset _ _ ∙ length-splice off d _ ∙ length-splice fs pair p ∙ size

  pub count-inserted : slice entries_offset 2 (inserted p fs off n d) ≡ be_bytes 2 n
  count-inserted =
      slice-splice_eq entries_offset 2 _ _ (length-be_bytes 2 n)
        (omega (arith, length-splice off d (splice fs pair p), length-splice fs pair p))

  -- The records that stand above `off` and below `fs` in the array stay.
  pub inserted-Layout :
      (rs : List (List ℕ))
      → total rs ≤ page_size
      → fs ≡ header_size + entry_size * length rs
      → off + length d ≤ page_size - total rs
      → Layout p 0 page_size rs
      → Layout (inserted p fs off n d) 0 page_size rs
  inserted-Layout rs t e b l =
      Layout-splice _ 0 page_size rs entries_offset _ t (inr (omega (arith, length-be_bytes 2 n)))
        (omega (arith, length-be_bytes 2 n))
        (Layout-splice _ 0 page_size rs off d t (inl (omega arith)) b (
          Layout-splice p 0 page_size rs fs pair t (inl (omega arith)) (omega (arith, length-pair))
            l))
