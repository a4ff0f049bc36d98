-- ===== src/Table/Keys.antt =====
-- A unique index on rows under a primary key.
use coordplane.Prelude.{
  ◌≡◌, String, true, Option, some, List, [], ◌∷◌, string_eq, arith, contains, distinct, keys_of,
}
use coordplane.Table.{find}

module _ {A : Type 0} (key : A → String) (f : A → Option String) where
  find-contains :
      (i k : String) (a : A) (xs : List A)
      → find key i xs ≡ some a
      → f a ≡ some k
      → contains k (keys_of f xs) ≡ true
  unfolding contains keys_of find
  find-contains i k a [] h e = ground arith
  find-contains i k a (x ∷ xs) h e = ground (arith, find-contains i k a xs, string_eq.beq_iff k k)

  -- Rows that are found and that the index gives one value are one row.
  pub distinct-find :
      (i j k : String) (a b : A) (xs : List A)
      → distinct (keys_of f xs) ≡ true
      → find key i xs ≡ some a
      → find key j xs ≡ some b
      → f a ≡ some k
      → f b ≡ some k
      → a ≡ b
  unfolding distinct keys_of find
  distinct-find i j k a b [] d g h e l = ground arith
  distinct-find i j k a b (x ∷ xs) d g h e l =
      ground (arith, distinct-find i j k a b xs, find-contains i k a xs, find-contains j k b xs)
