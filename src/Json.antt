-- ===== src/Json.antt =====
-- `encoding/json` on the values that the service encodes: objects of texts, numbers, flags and
-- lists of texts, of which the empty one is Go's nil. A struct is encoded in the order of its fields, a map in the order of its keys.
use Prim.Native.Char.{Char, code}
use Prim.Native.String.{[] as nil, ◌∷◌ as cons}
use coordplane.Prelude.{
  ℕ, suc, ◌/◌, ◌%◌, ℤ, pos, negsuc, String, Bool, true, false, ◌||◌, List, [], ◌∷◌, ◌==◌, nat_eq,
  string_eq, if◌then◌else◌, ltb, ◌<>◌, sort_by,
}
use coordplane.Text.{nat_text, text_ltb}

pub data Value : Type 0 where
  text : String → Value
  number : ℕ → Value
  integer : ℤ → Value
  flag : Bool → Value
  texts : List String → Value
  null : Value
  encoded : String → Value  -- an inner value that is encoded already

abbrev pub Fields : Type 0
Fields = List (String × Value)

hex_digit : ℕ → String
hex_digit d =
    if ltb d 10
    then nat_text d
    else if d == 10
    then "a"
    else if d == 11
    then "b"
    else if d == 12
    then "c"
    else if d == 13
    then "d"
    else if d == 14
    then "e"
    else "f"

-- One character inside a quoted text, with Go's HTML escapes.
escape_char : Char → String
unfolding hex_digit
escape_char c =
    let n = code c in
    if n == 34
    then "\\\""
    else if n == 92
    then "\\\\"
    else if n == 8
    then "\\b"
    else if n == 12
    then "\\f"
    else if n == 10
    then "\\n"
    else if n == 13
    then "\\r"
    else if n == 9
    then "\\t"
    else if ltb n 32 || n == 60 || n == 62 || n == 38
    then "\\u00" <> (hex_digit (n / 16) <> hex_digit (n % 16))
    else if n == 0x2028
    then "\\u2028"
    else if n == 0x2029
    then "\\u2029"
    else cons c nil

escape : String → String
unfolding escape_char
escape nil = nil
escape (cons c s) = escape_char c <> escape s

quote : String → String
unfolding escape
quote s = "\"" <> (escape s <> "\"")

marshal_texts : List String → String
unfolding quote
marshal_texts [] = ""
marshal_texts (s ∷ []) = quote s
marshal_texts (s ∷ t ∷ r) = quote s <> ("," <> marshal_texts (t ∷ r))

marshal_value : Value → String
unfolding quote marshal_texts
marshal_value (text s) = quote s
marshal_value (number n) = nat_text n
marshal_value (integer (pos n)) = nat_text n
marshal_value (integer (negsuc n)) = "-" <> nat_text (suc n)
marshal_value (flag true) = "true"
marshal_value (flag false) = "false"
marshal_value (texts []) = "null"
marshal_value (texts (s ∷ r)) = "[" <> (marshal_texts (s ∷ r) <> "]")
marshal_value null = "null"
marshal_value (encoded s) = s

marshal_fields : Fields → String
unfolding marshal_value quote
marshal_fields [] = ""
marshal_fields ((k, v) ∷ []) = quote k <> (":" <> marshal_value v)
marshal_fields ((k, v) ∷ f ∷ r) =
    quote k <> (":" <> (marshal_value v <> ("," <> marshal_fields (f ∷ r))))

-- `json.Marshal` of a struct.
unfoldable pub marshal : Fields → String
unfolding marshal_fields
marshal fields = "{" <> (marshal_fields fields <> "}")

by_key : String × Value → String × Value → Bool
by_key (j, v) (k, w) = text_ltb j k

-- `eventPayload`: `json.Marshal` of a map.
unfoldable pub event_payload : Fields → String
unfolding marshal by_key
event_payload fields = marshal (sort_by by_key fields)
