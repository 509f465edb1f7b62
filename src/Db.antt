-- ===== src/Db.antt =====
-- The database that the handlers reach through gorm (gorm.io/gorm over SQLite), which is not part of
-- the repository. A table is an interface: its operations, and the documented effect of each on
-- the rows, which are kept by primary key. Every statement may fail, and then changes nothing.
pub mod Memory
pub mod Touches
use teenet_wallet.Base.{
  ℕ, ◌≡◌, refl, ◌⊎◌, inl, inr, Bool, true, false, ◌&&◌, Option, none, some, if◌then◌else◌, ◌==◌,
  nat_eq,
}

-- The result of `First`: a row with its key, gorm.ErrRecordNotFound, or another error.
pub data Found {ℓ} (A : Type ℓ) : Type ℓ where
  found : A → Found A
  missing : Found A
  failed : Found A

-- The result of `Create`: the key of the new row, a UNIQUE violation, or another error.
pub data Created : Type 0 where
  created : ℕ → Created
  duplicate : Created
  not_created : Created

-- The result of `Updates` on the rows of a condition, by `RowsAffected`.
pub data Affected : Type 0 where
  rows_changed no_rows : Affected
  write_error : Affected

abbrev pub is_write_error : Affected → Bool
is_write_error rows_changed = false
is_write_error no_rows = false
is_write_error write_error = true

abbrev pub map_row {ℓ} : {A : Type ℓ} → (A → A) → Option A → Option A
map_row f none = none
map_row f (some r) = some (f r)

-- `UPDATE ... SET f WHERE p`, on one row.
abbrev pub set_where {ℓ} : {A : Type ℓ} → (A → Bool) → (A → A) → A → A
set_where p f r = if p r then f r else r

-- `DELETE ... WHERE p`, on one row.
abbrev pub drop_where {ℓ} : {A : Type ℓ} → (A → Bool) → Option A → Option A
drop_where p none = none
drop_where p (some r) = if p r then none else some r

-- The row under key `j` after a `Create`.
abbrev pub row_after_create {ℓ} : {A : Type ℓ} → Created → A → ℕ → Option A → Option A
row_after_create (created id) r j old = if id == j then some r else old
row_after_create duplicate r j old = old
row_after_create not_created r j old = old

pub record Table (Row : Type 0) : Type 1 where
  pub Store : Type 0
  -- The contents: the row under a key.
  pub row : ℕ → Store → Option Row
  -- `Where(p).First(&r)`
  pub find : (ℕ → Row → Bool) → Store → Found (ℕ × Row)
  -- `First(&r, id)`
  pub get : ℕ → Store → Found Row
  -- `Model(&r).Updates(f)`, by the key of `r`; true if there was no error.
  pub update : ℕ → (Row → Row) → Store → Store × Bool
  -- `Where(p).Updates(f)`
  pub update_where : (ℕ → Row → Bool) → (Row → Row) → Store → Store × Affected
  pub create : Row → Store → Store × Created
  -- `Delete(&r)`, by the key of `r`; true if there was no error.
  pub delete : ℕ → Store → Store × Bool
  -- `Where(p).Delete`
  pub delete_where : (ℕ → Row → Bool) → Store → Store × Affected
  pub find_found :
      (p : ℕ → Row → Bool) (s : Store) (id : ℕ) (r : Row)
      → find p s ≡ found (id, r)
      → (row id s ≡ some r) × (p id r ≡ true)
  pub get_found : (id : ℕ) (s : Store) (r : Row) → get id s ≡ found r → row id s ≡ some r
  pub update_row :
      (id : ℕ) (f : Row → Row) (s : Store) (j : ℕ)
      → row j (update id f s).0
        ≡ (if (update id f s).1 && (id == j) then map_row f (row j s) else row j s)
  pub update_where_row :
      (p : ℕ → Row → Bool) (f : Row → Row) (s : Store) (j : ℕ)
      → row j (update_where p f s).0 ≡ (
          if is_write_error (update_where p f s).1
          then row j s
          else map_row (set_where (p j) f) (row j s))
  pub create_row :
      (r : Row) (s : Store) (j : ℕ)
      → row j (create r s).0 ≡ row_after_create (create r s).1 r j (row j s)
  pub delete_row :
      (id : ℕ) (s : Store) (j : ℕ)
      → row j (delete id s).0 ≡ (if (delete id s).1 && (id == j) then none else row j s)
  pub delete_where_row :
      (p : ℕ → Row → Bool) (s : Store) (j : ℕ)
      → row j (delete_where p s).0
        ≡ (if is_write_error (delete_where p s).1 then row j s else drop_where (p j) (row j s))

pub Found-cases {ℓ} :
    {A : Type ℓ} (o : Found A) → ((a : A) × (o ≡ found a)) ⊎ (o ≡ missing) ⊎ (o ≡ failed)
Found-cases (found a) = inl (a, refl)
Found-cases missing = inr (inl refl)
Found-cases failed = inr (inr refl)
