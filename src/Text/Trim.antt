-- ===== src/Text/Trim.antt =====
-- What trimming leaves as it is (`trim_space` of internal/core/service.go's texts).
use Prim.Native.Char.{Char, code}
use Prim.Native.String.{slice, [] as nil, ◌∷◌ as cons}
use Prim.Native.String.append
use text.Mathlib.TextLemmas.{nil≢cons}
use text.Mathlib.TextEquality.{eq_iff}
use coordplane.Prelude.{
  ℕ, ◌≡◌, refl, sym, ap, ◌∙◌, String, ◌-◌, len, Bool, true, false, ◌&&◌, ◌==◌, string_eq,
  Bool-cases, inl, inr, if◌then◌else◌, leb, ◌<>◌,
}
use coordplane.Text.{
  is_space, trim_left, trim_right, trim_space, bounded_durable_text, truncated_suffix,
}

-- A text that ends in no space.
pub record Trimmed (s : String) : Type 0 where
  pub same : trim_right s ≡ s
  pub filled : (s == "") ≡ false

cons-filled : (c : Char) (s : String) → (cons c s == "") ≡ false
cons-filled c s = elim (Bool-cases (cons c s == "")) [
  | inl h ↦ absurd (nil≢cons (sym ((eq_iff (cons c s) "").0 h)))
  | inr h ↦ h
]

trimmed_cons :
    (c : Char) (s : String) (b : Bool)
    → trim_right s ≡ s
    → (s == "" && is_space (code c)) ≡ b
    → trim_right (if b then nil else cons c s) ≡ (if b then nil else cons c s)
unfolding trim_right
trimmed_cons c s true h e = refl
trimmed_cons c s false h e = rw h (rw e refl)

trim_right-again : (s : String) → trim_right (trim_right s) ≡ trim_right s
unfolding trim_right
trim_right-again nil = refl
trim_right-again (cons c s) = trimmed_cons c (trim_right s) _ (trim_right-again s) refl

append-Trimmed : (s t : String) → Trimmed t → Trimmed (s <> t)
unfolding trim_right
append-Trimmed nil t h = rw (append.nil t) h
append-Trimmed (cons c s) t h =
    let r = append-Trimmed s t h in
    rw (append.cons c s t)
      (record { same = rw (r.same, r.filled) refl; filled = cons-filled c (s <> t) })

trim_right-filled :
    (c : Char) (s : String) → is_space (code c) ≡ false → (trim_right (cons c s) == "") ≡ false
unfolding trim_right
trim_right-filled c s h = rw (h, and_false (trim_right s == "")) (cons-filled c (trim_right s))
  where
    and_false : (b : Bool) → (b && false) ≡ false
    and_false true = refl
    and_false false = refl

trim_left-cons :
    (c : Char) (s : String) → is_space (code c) ≡ false → trim_left (cons c s) ≡ cons c s
unfolding trim_left
trim_left-cons c s h = rw h refl

trim_space-cons :
    (c : Char) (s : String)
    → is_space (code c) ≡ false
    → trim_space (cons c s) ≡ trim_right (cons c s)
unfolding trim_space
trim_space-cons c s h = ap trim_right (trim_left-cons c s h)

-- A text that begins and ends with other characters than spaces is left as it is.
pub trim_space-Trimmed :
    (c : Char) (s t : String)
    → is_space (code c) ≡ false
    → Trimmed t
    → trim_space (cons c s <> t) ≡ cons c s <> t
trim_space-Trimmed c s t h k =
    rw (append.cons c s t) (
      trim_space-cons c (s <> t) h
      ∙ rw (← append.cons c s t) ((append-Trimmed (cons c s) t k).same))

-- A bounded text has no space at its end, if it does not begin with one.
pub bounded_durable_text-Trimmed :
    (c : Char) (s : String) (limit : ℕ)
    → is_space (code c) ≡ false
    → Trimmed (bounded_durable_text (cons c s) limit)
unfolding bounded_durable_text trim_right
bounded_durable_text-Trimmed c s limit h =
    rw (trim_space-cons c s h) (bounded (leb (len (trim_right (cons c s))) limit))
  where
    bounded :
        (b : Bool)
        → Trimmed (
            if b
            then trim_right (cons c s)
            else slice (trim_right (cons c s)) 0 (limit - len truncated_suffix) <> truncated_suffix)
    bounded true = record { same = trim_right-again (cons c s); filled = trim_right-filled c s h }
    bounded false = append-Trimmed _ truncated_suffix (record { same = refl; filled = refl })
