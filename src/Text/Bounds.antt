-- ===== src/Text/Bounds.antt =====
-- The length of what internal/core/service.go bounds.
use Prim.Native.Nat.{compare, Ordering}
use Prim.Native.Char.{Char, len_utf8}
use Prim.Native.String.{slice, fits, [] as nil, ◌∷◌ as cons}
use Prim.Native.String.slice
use Prim.Native.String.len
use text.Mathlib.TextPositions.{len-append}
use coordplane.Prelude.{ℕ, zero, ◌≤◌, ◌-◌, String, len, ◌≡◌, arith, refl}
use coordplane.Text.{trim_space, bounded_durable_text, truncated_suffix}

-- What fits holds at most its own length.
le_of_compare : (w b : ℕ) → compare w b ≡ Ordering.lt → w ≤ b
le_of_compare w b h = ground arith

eq_of_compare : (w b : ℕ) → compare w b ≡ Ordering.eq → w ≡ b
eq_of_compare w b h = ground arith

len-fits :
    (o : Ordering) (c : Char) (r : String) (w b : ℕ)
    → compare w b ≡ o
    → w ≡ len_utf8 c
    → len r ≤ b - w
    → len (fits o c r) ≤ b
len-fits Ordering.lt c r w b o e h = rw len.cons (omega (arith, le_of_compare w b o))
len-fits Ordering.eq c r w b o e h = rw len.cons (omega (arith, eq_of_compare w b o))
len-fits Ordering.gt c r w b o e h = rw len.nil (omega arith)

len-slice : (s : String) (b : ℕ) → len (slice s 0 b) ≤ b
len-slice nil b = rw (slice.nil 0 b, len.nil) (omega arith)
len-slice (cons c s) b = rw (slice.cons-zero c s b) (
    len-fits (compare (len_utf8 c) b) c (slice s zero (b - len_utf8 c)) (len_utf8 c) b refl refl
      (len-slice s (b - len_utf8 c)))

-- A text that is stored is no longer than its limit, where the limit leaves room for the suffix.
pub len-bounded_durable_text :
    (value : String) (limit : ℕ) → 14 ≤ limit → len (bounded_durable_text value limit) ≤ limit
unfolding bounded_durable_text
len-bounded_durable_text value limit h = ground (
  arith,
  len-append (slice (trim_space value) 0 (limit - 14)) truncated_suffix,
  len-slice (trim_space value) (limit - 14),
)
