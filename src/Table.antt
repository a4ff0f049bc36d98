-- ===== src/Table.antt =====
-- Rows under a text primary key, in insertion order: what internal/store/tx.go reads and writes
-- by `WHERE id=?`.
pub mod Keys
use coordplane.Prelude.{
  String, ◌≡◌, refl, Option, none, some, List, [], ◌∷◌, ◌++◌, ◌⊎◌, inl, inr, arith, ◌==◌, string_eq,
  if◌then◌else◌,
}
use text.Mathlib.TextEquality.{eq_iff}

module _ {ℓ} {A : Type ℓ} (key : A → String) where
  unfoldable pub find : String → List A → Option A
  find k [] = none
  find k (x ∷ xs) = if key x == k then some x else find k xs

  -- The row with the key of `r` becomes `r`.
  unfoldable pub replace : A → List A → List A
  replace r [] = []
  replace r (x ∷ xs) = if key x == key r then r ∷ xs else x ∷ replace r xs

  pub find-key : (k : String) (xs : List A) (r : A) → find k xs ≡ some r → key r ≡ k
  unfolding find
  find-key k [] r h = ground arith
  find-key k (x ∷ xs) r h = ground (arith, find-key k xs r, eq_iff (key x) k)

  pub find-replace :
      (k : String) (r : A) (xs : List A)
      → find k (replace r xs)
        ≡ (if key r == k then (elim (find k xs) [ none ↦ none | some _ ↦ some r ]) else find k xs)
  unfolding find replace
  find-replace k r [] = ground arith
  find-replace k r (x ∷ xs) =
      ground
        (arith, find-replace k r xs, eq_iff (key x) (key r), eq_iff (key r) k, eq_iff (key x) k)

  pub find-append :
      (k : String) (xs ys : List A)
      → find k (xs ++ ys) ≡ (elim (find k xs) [ none ↦ find k ys | some r ↦ some r ])
  unfolding find
  find-append k [] ys = refl
  find-append k (x ∷ xs) ys = ground (arith, find-append k xs ys)

  -- A row after another one was replaced, or itself.
  pub find-replaced :
      (id k : String) (row r x : A) (xs : List A)
      → find id xs ≡ some row
      → key r ≡ key row
      → find k xs ≡ some x
      → (find k (replace r xs) ≡ some x) ⊎ ((find k (replace r xs) ≡ some r) × (row ≡ x))
  find-replaced id k row r x xs f e g =
      ground (arith, find-replace k r xs, find-key id xs row f, find-key k xs x g, eq_iff (key r) k)

  -- A row is found where it replaced another one.
  pub find-replace_same :
      (k : String) (row r : A) (xs : List A)
      → find k xs ≡ some row
      → key r ≡ key row
      → find k (replace r xs) ≡ some r
  find-replace_same k row r xs f e =
      ground (arith, find-replace k r xs, find-key k xs row f, eq_iff (key r) k)
