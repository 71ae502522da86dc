-- ===== src/Page/Layout.antt =====
-- What it means that a slotted page holds a list of records, src/page/mod.rs: the slot array grows
-- up from the header, the records grow down from the end of the page, the next one just below the
-- one before.
use native.Mathlib.Nat.{add-zero}
use db_rs.Base.{
  ℕ, zero, suc, ◌+◌, ◌-◌, ◌*◌, ◌^◌, ◌≤◌, ◌<◌, ◌≡◌, ◌∙◌, subst, ◌⊎◌, inr, arith, List, [], ◌∷◌, ◌++◌,
  some, length, get_elem?, slice, splice, slice-splice_apart, be_bytes, be_value-be_bytes, ok,
  read_slice_lem,
}
use db_rs.Page.{PageBytes, header_size, entry_size, page_size, read_entry, entries_offset}

-- The bytes that records take.
abbrev pub total : List (List ℕ) → ℕ
total [] = 0
total (r ∷ rs) = length r + total rs

-- The entry `i` of the slot array says where the record `r` stands, and it does.
pub record Slot (p : PageBytes) (i off : ℕ) (r : List ℕ) : Type 0 where
  pub offset_bytes : slice (header_size + entry_size * i) 2 p ≡ be_bytes 2 off
  pub size_bytes : slice (header_size + entry_size * i + 2) 2 p ≡ be_bytes 2 (length r)
  pub content : slice off (length r) p ≡ r

-- The records `rs` stand in the slots from `i` on, one below the other from `top` on.
abbrev pub Layout : PageBytes → ℕ → ℕ → List (List ℕ) → Type 0
Layout p i top [] = Unit {0}
Layout p i top (r ∷ rs) = Slot p i (top - length r) r × Layout p (suc i) (top - length r) rs

pub record Holds (p : PageBytes) (rs : List (List ℕ)) : Type 0 where
  pub size : length p ≡ page_size
  pub count : slice entries_offset 2 p ≡ be_bytes 2 (length rs)
  pub fits : header_size + entry_size * length rs + total rs ≤ page_size
  pub layout : Layout p 0 page_size rs

-- A write outside a slot leaves the slot alone.
pub Slot-splice :
    {p : PageBytes} {i off : ℕ} {r : List ℕ} (a : ℕ) (bs : List ℕ)
    → (header_size + entry_size * i + 4 ≤ a) ⊎ (a + length bs ≤ header_size + entry_size * i)
    → (off + length r ≤ a) ⊎ (a + length bs ≤ off)
    → Slot p i off r
    → Slot (splice a bs p) i off r
Slot-splice {p} {i} {off} {r} a bs e c s = record {
  offset_bytes =
      slice-splice_apart (header_size + entry_size * i) 2 a bs p (omega arith) ∙ s.offset_bytes;
  size_bytes =
      slice-splice_apart (header_size + entry_size * i + 2) 2 a bs p (omega arith) ∙ s.size_bytes;
  content = slice-splice_apart off (length r) a bs p c ∙ s.content;
}

pub Layout-splice :
    (p : PageBytes) (i top : ℕ) (rs : List (List ℕ)) (a : ℕ) (bs : List ℕ)
    → total rs ≤ top
    → (header_size + entry_size * (i + length rs) ≤ a)
      ⊎ (a + length bs ≤ header_size + entry_size * i)
    → a + length bs ≤ top - total rs
    → Layout p i top rs
    → Layout (splice a bs p) i top rs
Layout-splice p i top [] a bs t e c l = tt
Layout-splice p i top (r ∷ rs) a bs t e c (s, l) = (
  Slot-splice a bs (omega arith) (inr (omega arith)) s,
  Layout-splice p (suc i) (top - length r) rs a bs (omega arith) (omega arith) (omega arith) l,
)

pub total-append : (rs ss : List (List ℕ)) → total (rs ++ ss) ≡ total rs + total ss
total-append [] ss = omega arith
total-append (r ∷ rs) ss = omega (arith, total-append rs ss)

-- One more record below the last one.
pub Layout-snoc :
    (p : PageBytes) (i top : ℕ) (rs : List (List ℕ)) (r : List ℕ) (j off : ℕ)
    → j ≡ i + length rs
    → off ≡ top - total rs - length r
    → Layout p i top rs
    → Slot p j off r
    → Layout p i top (rs ++ (r ∷ []))
Layout-snoc p i top [] r j off ej eo l s =
    let e : j ≡ i = omega arith in
    let f : off ≡ top - length r = omega arith in
    (subst (λ (k : ℕ). Slot p i k r) f (subst (λ (k : ℕ). Slot p k off r) e s), tt)
Layout-snoc p i top (x ∷ rs) r j off ej eo (s₀, l) s =
    (s₀, Layout-snoc p (suc i) (top - length x) rs r j off (omega arith) (omega arith) l s)

-- Each record is in its slot.
pub Layout-get :
    (p : PageBytes) (i top : ℕ) (rs : List (List ℕ)) (k : ℕ) (r : List ℕ)
    → total rs ≤ top
    → get_elem? rs k ≡ some r
    → Layout p i top rs
    → (off : ℕ) × (off + length r ≤ top) × Slot p (i + k) off r
Layout-get p i top [] k r t h l = cc
Layout-get p i top (x ∷ rs) zero r t h (s, l) =
    let e : x ≡ r = cc in
    let here : Slot p (i + 0) (top - length x) x = rw add-zero s in
    subst (λ q. (off : ℕ) × (off + length q ≤ top) × Slot p (i + 0) off q) e
      (top - length x, omega arith, here)
Layout-get p i top (x ∷ rs) (suc k) r t h (s, l) =
    let (off, b, found) = Layout-get p (suc i) (top - length x) rs k r (omega arith) h l in
    let e : suc i + k ≡ i + suc k = omega arith in
    (off, omega arith, subst (λ j. Slot p j off r) e found)

-- A slot is read back as its entry.
pub read_entry-Slot :
    {p : PageBytes} (i off : ℕ) (r : List ℕ)
    → header_size + entry_size * i + 4 ≤ length p
    → off < 2 ^ 16
    → length r < 2 ^ 16
    → Slot p i off r
    → read_entry i p ≡ ok (record { offset = off; size = length r })
unfolding read_entry
read_entry-Slot {p} i off r h ho hr s = rw (
  read_slice_lem (header_size + entry_size * i) 2 p (omega arith),
  read_slice_lem (header_size + entry_size * i + 2) 2 p (omega arith),
  s.offset_bytes,
  s.size_bytes,
  be_value-be_bytes 2 off ho,
  be_value-be_bytes 2 (length r) hr,
)

-- The last slot ends where the free space begins.
pub Layout-last :
    (p : PageBytes) (i top : ℕ) (x : List ℕ) (rs : List (List ℕ))
    → total (x ∷ rs) ≤ top
    → Layout p i top (x ∷ rs)
    → (r : List ℕ) × (length r ≤ top) × Slot p (i + length rs) (top - total (x ∷ rs)) r
Layout-last p i top x [] t (s, l) =
    let here : Slot p (i + 0) (top - length x) x = rw add-zero s in
    let e : top - length x ≡ top - total (x ∷ []) = omega arith in
    (x, omega arith, subst (λ (k : ℕ). Slot p (i + 0) k x) e here)
Layout-last p i top x (y ∷ rs) t (s, l) =
    let (r, b, found) = Layout-last p (suc i) (top - length x) y rs (omega arith) l in
    let e : top - length x - total (y ∷ rs) ≡ top - total (x ∷ y ∷ rs) = omega arith in
    let f : suc i + length rs ≡ i + length (y ∷ rs) = omega arith in
    (
      r,
      omega arith,
      subst (λ (k : ℕ). Slot p k (top - total (x ∷ y ∷ rs)) r) f
          (subst (λ (k : ℕ). Slot p (suc i + length rs) k r) e found),
    )

pub Holds-Slot :
    {p : PageBytes} {rs : List (List ℕ)} (i : ℕ) (r : List ℕ)
    → Holds p rs
    → get_elem? rs i ≡ some r
    → (off : ℕ) × (off + length r ≤ page_size) × Slot p i off r
Holds-Slot {p} {rs} i r h e =
    let (off, b, s) = Layout-get p 0 page_size rs i r (omega (arith, h.fits)) e h.layout in
    let z : 0 + i ≡ i = omega arith in (off, b, subst (λ k. Slot p k off r) z s)
