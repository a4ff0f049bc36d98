-- ===== src/Service/Agents/Config/Valid.antt =====
-- What a configuration is that has passed `validateAgentConfig`.
use Prim.Native.String.len
use coordplane.Prelude.{
  ◌≤◌, ◌≡◌, refl, String, len, Bool, true, false, ◌||◌, not, none, some, ◌==◌, nat_eq, string_eq,
  contains, arith,
}
use coordplane.Result.{ok}
use coordplane.Text.{trim_space}
use coordplane.Table.{find}
use coordplane.Exec.{Env, World}
use coordplane.Exec.Ensures.{Ensures, Ensures-lift, Ensures-pure, Ensures-demand}
use coordplane.Service.Agents.{AgentConfig}
use coordplane.Service.Agents.Config.{
  adapter_id, all_token_chars, optional_config_token, is_canonical_path, file_source,
  validate_instructions_source, maximum_instructions_bytes, validated_effort, allowed_effort,
  unregistered, validate_agent_config,
}

-- Exactly one source of instructions is given: a canonical path, or a text within its limit.
pub record OneSource (file text : String) : Type 0 where
  pub one : (file == "") ≡ not (text == "")
  pub canonical : (file == "" || is_canonical_path file) ≡ true
  pub bounded : len text ≤ maximum_instructions_bytes

file_source-canonical :
    (file f t : String)
    → file_source file ≡ ok (f, t)
    → (f ≡ file) × (t ≡ "") × (is_canonical_path file ≡ true)
unfolding file_source
file_source-canonical file f t h = (ground arith, ground arith, ground arith)

empty-bounded : (t : String) → t ≡ "" → len t ≤ maximum_instructions_bytes
empty-bounded t h = rw (h, len.nil) (omega arith)

source-OneSource :
    (raw text f t : String) → validate_instructions_source raw text ≡ ok (f, t) → OneSource f t
unfolding validate_instructions_source
source-OneSource raw text f t h = record {
  one = ground (
    arith,
    string_eq.beq_iff f "",
    string_eq.beq_iff t "",
    string_eq.beq_iff (trim_space raw) "",
    string_eq.beq_iff text "",
    file_source-canonical (trim_space raw) f t,
  );
  canonical = ground (
    arith,
    string_eq.beq_iff f "",
    string_eq.beq_iff (trim_space raw) "",
    string_eq.beq_iff text "",
    file_source-canonical (trim_space raw) f t,
  );
  bounded = ground (
    arith,
    empty-bounded t,
    string_eq.beq_iff text "",
    file_source-canonical (trim_space raw) f t,
  );
}

empty-chars : (v : String) → v ≡ "" → all_token_chars v ≡ true
unfolding all_token_chars
empty-chars v h = rw h refl

token-chars :
    (name raw v : String) → optional_config_token name raw ≡ ok v → all_token_chars v ≡ true
unfolding optional_config_token
token-chars name raw v h = ground (arith, empty-chars v)

-- No effort, or one that the adapter allows.
unfoldable pub allows : Env → String → String → Bool
allows env adapter effort = effort == "" || (elim (find adapter_id adapter env.adapters) [
  | none ↦ false
  | some a ↦ contains effort a.allowed_efforts
])

effort-allowed :
    (env : Env) (adapter raw v : String)
    → validated_effort env adapter raw ≡ ok v
    → allows env adapter v ≡ true
unfolding validated_effort allowed_effort allows
effort-allowed env adapter raw v h = ground (arith, string_eq.beq_iff v "")

-- A configuration that passed.
pub record Valid (env : Env) (c : AgentConfig) : Type 0 where
  pub registered : unregistered (find adapter_id c.adapter_id env.adapters) ≡ false
  pub source : OneSource c.instructions_file c.instructions_text
  pub model : all_token_chars c.model ≡ true
  pub subagent_model : all_token_chars c.subagent_model ≡ true
  pub effort : allows env c.adapter_id c.effort ≡ true

registered_adapter : (b : Bool) → not b ≡ true → b ≡ false
registered_adapter b h = ground arith

validate_agent_config-Ensures :
    (env : Env) (raw : AgentConfig) → Ensures (Valid env) (validate_agent_config env raw)
unfolding validate_agent_config
validate_agent_config-Ensures env raw = Ensures-lift _ _ (λ name _. Ensures-lift _ _ (λ adapter _.
    Ensures-demand _ _ _ (λ r. Ensures-lift _ _ (λ image _. Ensures-lift _ _ (λ p s.
      Ensures-lift _ _ (λ model m. Ensures-lift _ _ (λ subagent n. Ensures-lift _ _ (λ url _.
        Ensures-lift _ _ (λ effort e. Ensures-pure _ (record {
          registered = registered_adapter _ r;
          source = source-OneSource raw.instructions_file raw.instructions_text p.0 p.1 s;
          model = token-chars "model" raw.model model m;
          subagent_model = token-chars "subagent_model" raw.subagent_model subagent n;
          effort = effort-allowed env adapter raw.effort effort e;
        }))))))))))

-- A configuration of an agent that is accepted names a registered adapter, exactly one source of
-- instructions, which is a canonical path or a text within its limit, and models and an effort that
-- are safe tokens and allowed for the adapter.
pub validate_agent_config-Valid :
    (env : Env) (raw c : AgentConfig) (w w' : World)
    → validate_agent_config env raw w ≡ (ok c, w')
    → Valid env c
validate_agent_config-Valid env raw c w w' h =
    (validate_agent_config-Ensures env raw).returns c w w' h
