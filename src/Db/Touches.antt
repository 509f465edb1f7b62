-- ===== src/Db/Touches.antt =====
-- Statements that touch only rows with a property.
use teenet_wallet.Base.{
  ℕ, ◌≡◌, refl, sym, subst, Bool, true, ◌&&◌, Option, none, some, inl, inr, ◌⊎◌, if◌then◌else◌,
  if_ind, and_true, ◌==◌, nat_eq,
}
use teenet_wallet.Db.{
  Created, created, duplicate, not_created, Table, row_after_create, drop_where, is_write_error,
}

-- The row is there and has the property.
abbrev pub Has {ℓ} : {Row : Type ℓ} → (Row → Type 0) → Option Row → Type ℓ
Has {Row = Row} P o = (r : Row) × (o ≡ some r) × P r

-- A row is as it was, or it has the property before or after.
abbrev pub Touches {ℓ} : {Row : Type ℓ} → (Row → Type 0) → Option Row → Option Row → Type ℓ
Touches P old new = (new ≡ old) ⊎ (Has P old ⊎ Has P new)

module _ {Row : Type 0} (table : Table Row) (P : Row → Type 0) where
  open table use {Store, row, create, update, delete, delete_where}

  row_after_create-Touches :
      (r : Row) (c : Created) (j : ℕ) (old : Option Row)
      → P r
      → Touches P old (row_after_create c r j old)
  row_after_create-Touches r duplicate j old h = inl refl
  row_after_create-Touches r not_created j old h = inl refl
  row_after_create-Touches r (created id) j old h =
      if_ind (Touches P old) (id == j) _ _ (λ _. inr (inr (r, refl, h))) (λ _. inl refl)

  pub create-Touches :
      (r : Row) (s : Store) (j : ℕ) → P r → Touches P (row j s) (row j (create r s).0)
  create-Touches r s j h =
      subst (Touches P (row j s)) (sym (table.create_row r s j))
        (row_after_create-Touches r (create r s).1 j (row j s) h)

  at_key-Touches :
      (key : ℕ) (r : Row) (s : Store) (j : ℕ) (ok : Bool) (new : Option Row)
      → row key s ≡ some r
      → P r
      → Touches P (row j s) (if ok && (key == j) then new else row j s)
  at_key-Touches key r s j ok new here h =
      if_ind (Touches P (row j s)) (ok && (key == j)) _ _
        (λ hit.
          let same = (nat_eq.eqb_iff key j).0 (and_true ok _ hit).1 in
          inr (inl (r, subst (λ k. row k s ≡ some r) same here, h)))
        (λ _. inl refl)

  pub update-Touches :
      (key : ℕ) (r : Row) (f : Row → Row) (s : Store) (j : ℕ)
      → row key s ≡ some r
      → P r
      → Touches P (row j s) (row j (update key f s).0)
  update-Touches key r f s j here h =
      subst (Touches P (row j s)) (sym (table.update_row key f s j))
        (at_key-Touches key r s j (update key f s).1 _ here h)

  pub delete-Touches :
      (key : ℕ) (r : Row) (s : Store) (j : ℕ)
      → row key s ≡ some r
      → P r
      → Touches P (row j s) (row j (delete key s).0)
  delete-Touches key r s j here h =
      subst (Touches P (row j s)) (sym (table.delete_row key s j))
        (at_key-Touches key r s j (delete key s).1 none here h)

  drop_where-Touches :
      (p : Row → Bool) (o : Option Row)
      → ((r : Row) → p r ≡ true → P r)
      → Touches P o (drop_where p o)
  drop_where-Touches p none h = inl refl
  drop_where-Touches p (some r) h =
      if_ind (Touches P (some r)) (p r) _ _ (λ hit. inr (inl (r, refl, h r hit))) (λ _. inl refl)

  pub delete_where-Touches :
      (p : ℕ → Row → Bool) (s : Store) (j : ℕ)
      → ((r : Row) → p j r ≡ true → P r)
      → Touches P (row j s) (row j (delete_where p s).0)
  delete_where-Touches p s j h = subst (Touches P (row j s)) (sym (table.delete_where_row p s j)) (
      if_ind (Touches P (row j s)) (is_write_error (delete_where p s).1) _ _ (λ _. inl refl)
        (λ _. drop_where-Touches (p j) (row j s) h))
