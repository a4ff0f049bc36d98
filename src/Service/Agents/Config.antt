-- ===== src/Service/Agents/Config.antt =====
-- `validateAgentConfig` of internal/core/agent_config.go.
pub mod Valid
use Prim.Native.Char.{code}
use Prim.Native.String.{[] as nil, ◌∷◌ as cons}
use coordplane.Prelude.{
  ℕ, String, len, Bool, true, false, ◌&&◌, ◌||◌, ◌!=◌, not, Option, none, some, List, [], ◌∷◌, ◌==◌,
  nat_eq, string_eq, if◌then◌else◌, contains, leb, ltb, ◌<>◌,
}
use coordplane.Errors.{Error, ErrorCode, new_error}
use coordplane.Result.{Result, ok, err}
use coordplane.Text.{trim_space, require_text, join_with}
use coordplane.Table.{find}
use coordplane.Exec.{Env, Exec, AdapterDescriptor, Url, pure, lift, demand, ◌>>=◌, ◌>>◌}
use coordplane.Service.Agents.{AgentConfig}

abbrev pub maximum_instructions_bytes : ℕ
maximum_instructions_bytes = 1048576

abbrev pub adapter_id : AdapterDescriptor → String
adapter_id a = a.id

abbrev invalid : String → Error
invalid message = new_error ErrorCode.invalid_argument message false

is_token_char : ℕ → Bool
is_token_char c =
    (leb 65 c && leb c 90)
    || (leb 97 c && leb c 122)
    || (leb 48 c && leb c 57)
    || c == 46
    || c == 95
    || c == 58
    || c == 47
    || c == 45

-- `^[A-Za-z0-9._:/-]+$`, on a text that is not empty.
pub all_token_chars : String → Bool
unfolding is_token_char
all_token_chars nil = true
all_token_chars (cons c s) = let rest = all_token_chars s in is_token_char (code c) && rest

unfoldable pub optional_config_token : String → String → Result String
unfolding all_token_chars
optional_config_token name raw =
    let value = trim_space raw in
    if value == ""
    then ok ""
    else if ltb 256 (len value) || not (all_token_chars value)
    then err (invalid (name <> " must be a safe token matching [A-Za-z0-9._:/-]"))
    else ok value

-- A path cut at its slashes.
cut_at_slashes : String → List String
cut_at_slashes nil = nil ∷ []
cut_at_slashes (cons c s) =
    let rest = cut_at_slashes s in
    if code c == 47 then nil ∷ rest else elim rest [ [] ↦ cons c nil ∷ [] | p ∷ ps ↦ cons c p ∷ ps ]

-- The parts that are left, the last one first.
clean_part : List String → String → List String
clean_part done p =
    if p == "" || p == "."
    then done
    else if p == ".."
    then elim done [ [] ↦ [] | _ ∷ d ↦ d ]
    else p ∷ done

clean_parts : List String → List String → List String
unfolding clean_part
clean_parts done [] = done
clean_parts done (p ∷ ps) = clean_parts (clean_part done p) ps

in_order : List String → List String → List String
in_order [] after = after
in_order (p ∷ ps) after = in_order ps (p ∷ after)

-- `filepath.Clean` of a rooted path.
clean_rooted : String → String
unfolding cut_at_slashes clean_parts in_order
clean_rooted path = "/" <> join_with "/" (in_order (clean_parts [] (cut_at_slashes path)) [])

is_abs : String → Bool
is_abs nil = false
is_abs (cons c s) = code c == 47

unfoldable pub is_canonical_path : String → Bool
unfolding is_abs clean_rooted
is_canonical_path path = is_abs path && clean_rooted path == path

file_source : String → Result (String × String)
unfolding is_canonical_path
file_source file = elim (require_text "instructions_file" file) [
  | err e ↦ err e
  | ok _ ↦
      if is_canonical_path file
      then ok (file, "")
      else err (invalid "instructions_file must be a canonical daemon-host absolute path")
]

-- The file and the text of which one is given. A text is valid UTF-8 in the model.
unfoldable pub validate_instructions_source : String → String → Result (String × String)
unfolding file_source
validate_instructions_source raw text =
    let file = trim_space raw in
    if file != "" && text != ""
    then err (invalid "instructions_file and instructions_text are mutually exclusive")
    else if file == "" && text == ""
    then err (invalid "instructions_file or instructions_text is required")
    else if file != ""
    then file_source file
    else if ltb maximum_instructions_bytes (len text)
    then err (invalid "instructions_text must not exceed 1 MiB")
    else ok ("", text)

bad_url : Url → Bool
bad_url u =
    u.scheme != "https"
    || u.host == ""
    || u.has_user
    || u.raw_query != ""
    || u.fragment != ""
    || u.opaque != ""

checked_url : Option Url → Result String
unfolding bad_url
checked_url none =
    err (invalid "base_url must be an https URL without userinfo, query, or fragment")
checked_url (some u) =
    if bad_url u
    then err (invalid "base_url must be an https URL without userinfo, query, or fragment")
    else if u.text == ""
    then err (invalid "base_url normalization produced an empty value")
    else ok u.text

unfoldable pub optional_base_url : Env → String → Result String
unfolding checked_url
optional_base_url env raw =
    let value = trim_space raw in
    if value == ""
    then ok ""
    else if ltb 2048 (len value)
    then err (invalid "base_url must not exceed 2048 bytes")
    else checked_url (env.parse_url value)

allowed_effort : String → Option AdapterDescriptor → Result String
allowed_effort value none = err (invalid "adapter_id is not registered")
allowed_effort value (some a) = elim a.allowed_efforts [
  | [] ↦ err (invalid "adapter does not allow effort overrides")
  | _ ∷ _ ↦
      if contains value a.allowed_efforts
      then ok value
      else err (invalid "effort is not allowed for adapter_id")
]

unfoldable pub validated_effort : Env → String → String → Result String
unfolding allowed_effort
validated_effort env adapter raw =
    let value = trim_space raw in
    if value == "" then ok "" else allowed_effort value (find adapter_id adapter env.adapters)

pub unregistered : Option AdapterDescriptor → Bool
unregistered none = true
unregistered (some a) = false

unfoldable pub validate_agent_config : Env → AgentConfig → Exec AgentConfig
unfolding unregistered
validate_agent_config env raw = do
  display_name ← lift (require_text "display_name" raw.display_name)
  adapter ← lift (require_text "adapter_id" raw.adapter_id)
  demand (not (unregistered (find adapter_id adapter env.adapters)))
      (invalid "adapter_id is not registered")
  image ← lift (require_text "image" raw.image)
  (file, text) ← lift (validate_instructions_source raw.instructions_file raw.instructions_text)
  model ← lift (optional_config_token "model" raw.model)
  subagent_model ← lift (optional_config_token "subagent_model" raw.subagent_model)
  base_url ← lift (optional_base_url env raw.base_url)
  effort ← lift (validated_effort env adapter raw.effort)
  pure (record {
    display_name = display_name;
    adapter_id = adapter;
    image = image;
    instructions_file = file;
    instructions_text = text;
    model = model;
    subagent_model = subagent_model;
    base_url = base_url;
    effort = effort;
  })
