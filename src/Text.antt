-- ===== src/Text.antt =====
-- The text functions of internal/core/service.go, and what they call of Go's `strings`. A Go string
-- is a native text: bytes that are no UTF-8 do not occur in the model.
pub mod Bounds
pub mod Trim
use Prim.Native.Char.{Char, code}
use Prim.Native.String.{slice, [] as nil, ◌∷◌ as cons, compare as compare_text}
use Prim.Native.Nat.{Ordering}
use coordplane.Prelude.{
  ℕ, zero, suc, ◌-◌, ◌*◌, ◌/◌, ◌%◌, String, len, Bool, true, false, ◌||◌, ◌&&◌, List, [], ◌∷◌, leb,
  ltb, ◌==◌, nat_eq, string_eq, if◌then◌else◌, ◌<>◌, ◌!=◌,
}
use coordplane.Errors.{ErrorCode, Error, new_error, error_code_text}
use coordplane.Result.{Result, ok, err}

-- `unicode.IsSpace`.
abbrev is_space : ℕ → Bool
is_space c =
    (leb 9 c && leb c 13)
    || c == 32
    || c == 0x85
    || c == 0xa0
    || c == 0x1680
    || (leb 0x2000 c && leb c 0x200a)
    || c == 0x2028
    || c == 0x2029
    || c == 0x202f
    || c == 0x205f
    || c == 0x3000

pub trim_left : String → String
trim_left nil = nil
trim_left (cons c s) = let rest = trim_left s in if is_space (code c) then rest else cons c s

pub trim_right : String → String
trim_right nil = nil
trim_right (cons c s) =
    let rest = trim_right s in if rest == "" && is_space (code c) then nil else cons c rest

-- `strings.TrimSpace`.
unfoldable pub trim_space : String → String
unfolding trim_left trim_right
trim_space s = trim_right (trim_left s)

-- `strings.ToLower`, on the capitals of ASCII; no other letter has a small letter that the names
-- compared with the result are spelled with.
unfoldable pub to_lower : String → String
to_lower nil = nil
to_lower (cons c s) =
    let rest = to_lower s in
    if leb 65 (code c) && leb (code c) 90
    then slice "abcdefghijklmnopqrstuvwxyz" (code c - 65) (code c - 64) <> rest
    else cons c rest

-- Go's `<` on strings.
abbrev pub text_ltb : String → String → Bool
text_ltb s t = elim (compare_text s t) [ Ordering.lt ↦ true | _ ↦ false ]

-- `strings.Join(parts, "\x00")`, for the parts of a fingerprint.
unfoldable pub join_with : String → List String → String
join_with sep [] = ""
join_with sep (x ∷ []) = x
join_with sep (x ∷ y ∷ r) = x <> (sep <> join_with sep (y ∷ r))

digit_text : ℕ → String
digit_text d =
    if d == 0
    then "0"
    else if d == 1
    then "1"
    else if d == 2
    then "2"
    else if d == 3
    then "3"
    else if d == 4
    then "4"
    else if d == 5
    then "5"
    else if d == 6
    then "6"
    else if d == 7
    then "7"
    else if d == 8
    then "8"
    else "9"

decimal : ℕ → ℕ → String
decimal zero n = ""
decimal (suc fuel) n =
    let rest = decimal fuel (n / 10) in
    if ltb n 10 then digit_text n else rest <> digit_text (n % 10)

-- `%d`; a number has fewer digits than its successor has units, so the fuel suffices.
unfoldable pub nat_text : ℕ → String
unfolding digit_text decimal
nat_text n = decimal (suc n) n

-- The bounds of internal/core/pagination.go.
abbrev pub maximum_message_body_bytes : ℕ
maximum_message_body_bytes = 64 * 1024

abbrev pub maximum_task_description_bytes : ℕ
maximum_task_description_bytes = 256 * 1024

abbrev pub maximum_progress_summary_bytes : ℕ
maximum_progress_summary_bytes = 4 * 1024

abbrev pub maximum_outcome_text_bytes : ℕ
maximum_outcome_text_bytes = 4 * 1024

abbrev pub maximum_terminal_text_bytes : ℕ
maximum_terminal_text_bytes = 2 * 1024

abbrev pub maximum_event_payload_bytes : ℕ
maximum_event_payload_bytes = 32 * 1024

-- The `switch name` of `requireText`; 0 stands for no maximum.
unfoldable pub required_text_maximum : String → ℕ
required_text_maximum name =
    if name == "body"
    then maximum_message_body_bytes
    else if name == "summary"
    then maximum_progress_summary_bytes
    else if name == "name" || name == "display_name"
    then 256
    else if name == "title"
    then 512
    else if name == "adapter_id"
    then 256
    else if name == "image" || name == "source_ref"
    then 1024
    else if name == "source" || name == "instructions_file"
    then 2048
    else 0

unfoldable pub require_text : String → String → Result String
unfolding required_text_maximum
require_text name value =
    let trimmed = trim_space value in
    let maximum = required_text_maximum name in
    if trimmed == ""
    then err (new_error ErrorCode.invalid_argument (name <> " is required") false)
    else if ltb 0 maximum && ltb maximum (len trimmed)
    then err (
        new_error ErrorCode.invalid_argument
          (name <> (" must not exceed " <> (nat_text maximum <> " bytes"))) false)
    else ok trimmed

unfoldable pub optional_text_within : String → String → ℕ → Result String
optional_text_within name value maximum =
    let trimmed = trim_space value in
    if ltb maximum (len trimmed)
    then err (
        new_error ErrorCode.invalid_argument
          (name <> (" must not exceed " <> (nat_text maximum <> " bytes"))) false)
    else ok trimmed

abbrev pub truncated_suffix : String
truncated_suffix = "...[truncated]"

-- The loop that drops bytes until the prefix is valid UTF-8 leaves the whole characters that end
-- within the limit, which is `slice`. The source's callers pass a limit of at least 256.
unfoldable pub bounded_durable_text : String → ℕ → String
bounded_durable_text value limit =
    let trimmed = trim_space value in
    if leb (len trimmed) limit
    then trimmed
    else slice trimmed 0 (limit - len truncated_suffix) <> truncated_suffix

-- The text and whether it was cut.
unfoldable pub bounded_status_text : String → ℕ → String × Bool
bounded_status_text value limit =
    if leb (len value) limit then (value, false) else (slice value 0 limit, true)

-- `(*Error).Error`.
unfoldable pub error_text : Error → String
error_text e =
    error_code_text e.code
    <> (": "
        <> (e.message
            <> (if e.state != ""
                then " (state=" <> (e.state <> (" version=" <> (nat_text e.version <> ")")))
                else "")))
