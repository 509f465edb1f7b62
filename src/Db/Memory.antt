-- ===== src/Db/Memory.antt =====
-- A table in memory, on which no statement fails: it shows that the interface can be met, and the
-- examples run on it.
use teenet_wallet.Base.{
  refl, false, ℕ, zero, suc, ◌<◌, ◌≡◌, Bool, true, ◌&&◌, Option, none, some, arith, ltb,
  if◌then◌else◌, Option-cases, inl, inr, ◌==◌, nat_eq, List, [], ◌∷◌,
}
use teenet_wallet.Db.{
  failed, Affected, rows_changed, no_rows, write_error, is_write_error, Found, found, missing,
  Created, created, map_row, set_where, drop_where, row_after_create, Table,
}

-- The rows below the next key.
pub record Memory (Row : Type 0) : Type 0 where
  pub next_id : ℕ
  pub cell : ℕ → Option Row

module _ {Row : Type 0} where
  abbrev pub row : ℕ → Memory Row → Option Row
  row id m = if ltb id m.next_id then m.cell id else none

  abbrev pub search : (ℕ → Row → Bool) → (ℕ → Option Row) → ℕ → Found (ℕ × Row)
  search p cell zero = missing
  search p cell (suc n) = elim (cell n) [
    | none ↦ search p cell n
    | some r ↦ if p n r then found (n, r) else search p cell n
  ]

  abbrev pub to_found : Option Row → Found Row
  to_found none = missing
  to_found (some r) = found r

  abbrev pub find : (ℕ → Row → Bool) → Memory Row → Found (ℕ × Row)
  find p m = search p m.cell m.next_id

  abbrev pub update : ℕ → (Row → Row) → Memory Row → Memory Row × Bool
  update id f m =
      (record m { cell = λ j. if id == j then map_row f (m.cell j) else m.cell j }, true)

  abbrev affected : Found (ℕ × Row) → Affected
  affected (found r) = rows_changed
  affected missing = no_rows
  affected failed = write_error

  abbrev pub update_where : (ℕ → Row → Bool) → (Row → Row) → Memory Row → Memory Row × Affected
  update_where p f m =
      (record m { cell = λ j. map_row (set_where (p j) f) (m.cell j) }, affected (find p m))

  abbrev pub create : Row → Memory Row → Memory Row × Created
  create r m = (
    record { next_id = suc m.next_id; cell = λ j. if m.next_id == j then some r else m.cell j },
    created m.next_id,
  )

  abbrev pub delete : ℕ → Memory Row → Memory Row × Bool
  delete id m = (record m { cell = λ j. if id == j then none else m.cell j }, true)

  abbrev pub delete_where : (ℕ → Row → Bool) → Memory Row → Memory Row × Affected
  delete_where p m = (record m { cell = λ j. drop_where (p j) (m.cell j) }, affected (find p m))

  search_found :
      (p : ℕ → Row → Bool) (cell : ℕ → Option Row) (n id : ℕ) (r : Row)
      → search p cell n ≡ found (id, r)
      → (id < n) × (cell id ≡ some r) × (p id r ≡ true)
  search_found p cell zero id r e = absurd (cc)
  search_found p cell (suc n) id r e = elim (Option-cases (cell n)) [
    | inl empty ↦ grind (arith, search_found p cell n id r)
    | inr (q, full) ↦ grind (arith, search_found p cell n id r)
  ]

  pub find_found :
      (p : ℕ → Row → Bool) (m : Memory Row) (id : ℕ) (r : Row)
      → find p m ≡ found (id, r)
      → (row id m ≡ some r) × (p id r ≡ true)
  find_found p m id r e = ground (arith, search_found p m.cell m.next_id id r e)

  pub get_found :
      (id : ℕ) (m : Memory Row) (r : Row) → to_found (row id m) ≡ found r → row id m ≡ some r
  get_found id m r e = ground arith

  pub update_row :
      (id : ℕ) (f : Row → Row) (m : Memory Row) (j : ℕ)
      → row j (update id f m).0
        ≡ (if (update id f m).1 && (id == j) then map_row f (row j m) else row j m)
  update_row id f m j = ground arith

  search-ne-failed :
      (p : ℕ → Row → Bool) (cell : ℕ → Option Row) (n : ℕ)
      → is_write_error (affected (search p cell n)) ≡ false
  search-ne-failed p cell zero = refl
  search-ne-failed p cell (suc n) = ground (arith, search-ne-failed p cell n)

  pub update_where_row :
      (p : ℕ → Row → Bool) (f : Row → Row) (m : Memory Row) (j : ℕ)
      → row j (update_where p f m).0 ≡ (
          if is_write_error (update_where p f m).1
          then row j m
          else map_row (set_where (p j) f) (row j m))
  update_where_row p f m j = rw (search-ne-failed p m.cell m.next_id) (ground arith)

  pub create_row :
      (r : Row) (m : Memory Row) (j : ℕ)
      → row j (create r m).0 ≡ row_after_create (create r m).1 r j (row j m)
  create_row r m j = ground arith

  pub delete_row :
      (id : ℕ) (m : Memory Row) (j : ℕ)
      → row j (delete id m).0 ≡ (if (delete id m).1 && (id == j) then none else row j m)
  delete_row id m j = ground arith

  pub delete_where_row :
      (p : ℕ → Row → Bool) (m : Memory Row) (j : ℕ)
      → row j (delete_where p m).0
        ≡ (if is_write_error (delete_where p m).1 then row j m else drop_where (p j) (row j m))
  delete_where_row p m j = rw (search-ne-failed p m.cell m.next_id) (ground arith)

abbrev pub memory_table : (Row : Type 0) → Table Row
memory_table Row = record {
  Store = Memory Row;
  row = row;
  find = find;
  get = λ id m. to_found (row id m);
  update = update;
  update_where = update_where;
  create = create;
  delete = delete;
  delete_where = delete_where;
  find_found = find_found;
  get_found = get_found;
  update_row = update_row;
  update_where_row = update_where_row;
  create_row = create_row;
  delete_row = delete_row;
  delete_where_row = delete_where_row;
}

abbrev pub empty : {Row : Type 0} → Memory Row
empty = record { next_id = 1; cell = λ j. none }

abbrev pub insert_all : {Row : Type 0} → List Row → Memory Row → Memory Row
insert_all [] m = m
insert_all (r ∷ rs) m = insert_all rs (create r m).0
