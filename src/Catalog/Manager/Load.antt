-- ===== src/Catalog/Manager/Load.antt =====
-- Loading the catalog page finds the tables whose entries it holds, src/catalog.rs.
use db_rs.Base.{
  ℕ, suc, ◌+◌, ◌≡◌, refl, sym, ap, ◌∙◌, Bool-cases, inl, inr, arith, Option, none, some, List, [],
  ◌∷◌, length, get_elem?, lookup, insert_key, lookup-insert_key_self, lookup-insert_key_ne,
  if◌then◌else◌, ok,
}
use db_rs.Value.{bytes_eq}
use db_rs.Value.Order.{bytes_eq_iff}
use db_rs.Page.{PageBytes, catalog, page_kind, cast}
use db_rs.Page.Layout.{Holds}
use db_rs.Page.Insert.{get_slot-Holds, num_entries-Holds}
use db_rs.Catalog.{CatalogEntry, entry_from_bytes}
use db_rs.Catalog.Manager.{
  CatalogManager, create_table, get_table, load_slots, load_entries, load_page,
}

abbrev or_else : Option CatalogEntry → Option CatalogEntry → Option CatalogEntry
or_else (some entry) other = some entry
or_else none other = other

-- The last of the entries with a name.
abbrev pub last_named : List ℕ → List CatalogEntry → Option CatalogEntry
last_named name [] = none
last_named name (entry ∷ entries) =
    or_else (last_named name entries) (if bytes_eq entry.table_name name then some entry else none)

abbrev create_all : List CatalogEntry → CatalogManager → CatalogManager
create_all [] manager = manager
create_all (entry ∷ entries) manager = create_all entries (create_table entry manager)

or_else_assoc : (a b c : Option CatalogEntry) → or_else (or_else a b) c ≡ or_else a (or_else b c)
or_else_assoc (some entry) b c = refl
or_else_assoc none b c = refl

or_else-none : (a : Option CatalogEntry) → or_else a none ≡ a
or_else-none (some entry) = refl
or_else-none none = refl

get_table-create_table :
    (name : List ℕ) (entry : CatalogEntry) (manager : CatalogManager)
    → get_table name (create_table entry manager)
      ≡ or_else
          (if bytes_eq entry.table_name name then some entry else none)
          (get_table name manager)
unfolding get_table create_table
get_table-create_table name entry manager = elim (Bool-cases (bytes_eq entry.table_name name)) [
  | inl e ↦
      let same = (bytes_eq_iff entry.table_name name).0 e in
      ap (λ n. lookup bytes_eq n (insert_key bytes_eq entry.table_name entry manager.tables))
        (sym same)
      ∙ lookup-insert_key_self bytes_eq bytes_eq_iff entry.table_name entry manager.tables
      ∙ rw e refl
  | inr e ↦
      lookup-insert_key_ne bytes_eq bytes_eq_iff entry.table_name name entry manager.tables e
      ∙ rw e refl
]

get_table-create_all :
    (name : List ℕ) (entries : List CatalogEntry) (manager : CatalogManager)
    → get_table name (create_all entries manager)
      ≡ or_else (last_named name entries) (get_table name manager)
get_table-create_all name [] manager = refl
get_table-create_all name (entry ∷ entries) manager =
    get_table-create_all name entries (create_table entry manager)
    ∙ ap (or_else (last_named name entries)) (get_table-create_table name entry manager)
    ∙ sym (
        or_else_assoc (last_named name entries)
          (if bytes_eq entry.table_name name then some entry else none) (get_table name manager))

module _ (lossy : List ℕ → List ℕ) where
  -- The records are the bytes of the entries.
  abbrev pub Decode : List (List ℕ) → List CatalogEntry → Type 0
  Decode [] [] = Unit {0}
  Decode [] (entry ∷ entries) = ⊥
  Decode (r ∷ rs) [] = ⊥
  Decode (r ∷ rs) (entry ∷ entries) = (entry_from_bytes lossy r ≡ ok entry) × Decode rs entries

  load_slots-create_all :
      (rs all : List (List ℕ)) (entries : List CatalogEntry) (idx : ℕ) (page : PageBytes)
      (manager : CatalogManager)
      → Holds page all
      → ((n : ℕ) → get_elem? all (idx + n) ≡ get_elem? rs n)
      → Decode rs entries
      → load_slots lossy (length rs) idx page manager ≡ ok (create_all entries manager)
  unfolding load_slots
  load_slots-create_all [] all [] idx page manager holds suffix d = refl
  load_slots-create_all [] all (entry ∷ entries) idx page manager holds suffix d = absurd d
  load_slots-create_all (r ∷ rs) all [] idx page manager holds suffix d = absurd d
  load_slots-create_all (r ∷ rs) all (entry ∷ entries) idx page manager holds suffix (d, ds) =
      let here : get_elem? all idx ≡ some r = ap (get_elem? all) (omega arith) ∙ suffix 0 in
      rw (get_slot-Holds idx holds, here, d)
        (load_slots-create_all rs all entries (suc idx) page (create_table entry manager) holds
          (λ n. ap (get_elem? all) (omega arith) ∙ suffix (suc n)) ds)

  pub load_page-get_table :
      (page : PageBytes) (rs : List (List ℕ)) (entries : List CatalogEntry) (name : List ℕ)
      → page_kind page ≡ ok catalog
      → Holds page rs
      → Decode rs entries
      → (manager : CatalogManager) × (load_page lossy page ≡ ok manager)
        × (get_table name manager ≡ last_named name entries)
  unfolding load_page load_entries cast get_table
  load_page-get_table page rs entries name kind holds decode =
      let start : CatalogManager = record { tables = [] } in
      (
        create_all entries start,
        rw (kind, num_entries-Holds holds)
            (load_slots-create_all rs rs entries 0 page start holds
              (λ n. ap (get_elem? rs) (omega arith)) decode),
        get_table-create_all name entries start ∙ or_else-none (last_named name entries),
      )
