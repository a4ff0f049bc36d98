-- ===== src/Prelude/SortFacts.antt =====
-- Sorting keeps the members of a list, and their distinctness.
use mathlib.Core.Path.{◌≡◌, refl}
use mathlib.Core.Bool.{Bool, true, false, ◌||◌}
use mathlib.Core.List.{List, [], ◌∷◌}
use native.Mathlib.Omega.{arith}
use coordplane.Prelude.Tests.{Eq, ◌==◌}
use coordplane.Prelude.Lists.{contains, distinct}
use coordplane.Prelude.Sort.{insert_sorted, sort_by}

module _ {A : Type 0} ⦃e : Eq A⦄ (less : A → A → Bool) where
  contains-insert_sorted :
      (a x : A) (xs : List A) → contains a (insert_sorted less x xs) ≡ (x == a || contains a xs)
  unfolding contains insert_sorted
  contains-insert_sorted a x [] = refl
  contains-insert_sorted a x (y ∷ ys) = ground (arith, contains-insert_sorted a x ys)

  pub contains-sort_by : (a : A) (xs : List A) → contains a (sort_by less xs) ≡ contains a xs
  unfolding contains sort_by
  contains-sort_by a [] = refl
  contains-sort_by a (x ∷ xs) =
      ground (arith, contains-insert_sorted a x (sort_by less xs), contains-sort_by a xs)

  distinct-insert_sorted :
      (x : A) (xs : List A)
      → contains x xs ≡ false
      → distinct xs ≡ true
      → distinct (insert_sorted less x xs) ≡ true
  unfolding contains distinct insert_sorted
  distinct-insert_sorted x [] h d = refl
  distinct-insert_sorted x (y ∷ ys) h d = ground (
    arith,
    distinct-insert_sorted x ys,
    contains-insert_sorted y x ys,
    e.beq_iff x y,
    e.beq_iff y x,
  )

  pub distinct-sort_by : (xs : List A) → distinct xs ≡ true → distinct (sort_by less xs) ≡ true
  unfolding distinct sort_by
  distinct-sort_by [] d = refl
  distinct-sort_by (x ∷ xs) d =
      distinct-insert_sorted x (sort_by less xs) (ground (arith, contains-sort_by x xs))
        (distinct-sort_by xs (ground arith))
