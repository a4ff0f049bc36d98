-- ===== src/Service/Agents/Register/Moves.antt =====
-- Adding and updating agents lead the database by accepted writes.
use coordplane.Prelude.{◌≡◌, String, Option, none, some}
use coordplane.Model.{Agent}
use coordplane.Db.{DedupeResult}
use coordplane.Exec.{Env}
use coordplane.Tx.Requests.{RequestDedupe}
use coordplane.Roles.Operations.Moves.{Moves-require_operator_capability, role_reads}
use coordplane.Service.Agents.{AgentConfig, agent_from_config, apply_agent_config}
use coordplane.Service.Agents.Config.{validate_agent_config}
use coordplane.Service.Agents.Register.{
  AgentInput, id_or_new, no_agent, insert_mirrored_agent, added_or_new, add_agent,
  write_agent_config, updated_or_replayed, update_agent,
}
use coordplane.Steps.{agent_edge_refl}
use coordplane.Steps.Moves.{Moves, Others, moves_rules}
use coordplane.Steps.Owners.{owner_rules}
use coordplane.Steps.Writes.{write_rules}
use coordplane.Steps.Control.{read_rules}

validate_agent_config-Moves : (env : Env) (c : AgentConfig) → Moves (validate_agent_config env c)
unfolding validate_agent_config
validate_agent_config-Moves env c = search moves_rules depth 14

id_or_new-Moves : (env : Env) (id : String) → Moves (id_or_new env id)
unfolding id_or_new
id_or_new-Moves env id = search (moves_rules, read_rules)

no_agent-Moves : (o : Option Agent) → Moves (no_agent o)
unfolding no_agent
no_agent-Moves none = search moves_rules
no_agent-Moves (some a) = search moves_rules

insert_mirrored_agent-Moves :
    (a : Agent) (dedupe : RequestDedupe) (now : String)
    → a.version ≡ 1
    → Moves (insert_mirrored_agent a dedupe now)
unfolding insert_mirrored_agent
insert_mirrored_agent-Moves a dedupe now v = search (moves_rules, write_rules, owner_rules) depth 9

added_or_new-Moves :
    (env : Env) (requested : String) (c : AgentConfig) (dedupe : RequestDedupe)
    (o : Option DedupeResult)
    → Moves (added_or_new env requested c dedupe o)
unfolding added_or_new agent_from_config
added_or_new-Moves env requested c dedupe none =
    search (moves_rules, read_rules, id_or_new-Moves, no_agent-Moves, insert_mirrored_agent-Moves)
      depth 9
added_or_new-Moves env requested c dedupe (some recorded) = search (moves_rules, read_rules)

pub Moves-add_agent : (env : Env) (input : AgentInput) → Others env → Moves (add_agent env input)
unfolding add_agent
Moves-add_agent env input o =
    search
      (
        moves_rules, read_rules, Moves-require_operator_capability, validate_agent_config-Moves,
        added_or_new-Moves,
      )
      depth 12

write_agent_config-Moves :
    (a : Agent) (c : AgentConfig) (dedupe : RequestDedupe) (now : String)
    → Moves (write_agent_config a c dedupe now)
unfolding write_agent_config apply_agent_config
write_agent_config-Moves a c dedupe now =
    search (moves_rules, read_rules, write_rules, owner_rules, role_reads, agent_edge_refl) depth 12

updated_or_replayed-Moves :
    (env : Env) (id : String) (input : AgentInput) (c : AgentConfig) (dedupe : RequestDedupe)
    (o : Option DedupeResult)
    → Moves (updated_or_replayed env id input c dedupe o)
unfolding updated_or_replayed
updated_or_replayed-Moves env id input c dedupe none =
    search (moves_rules, read_rules, write_agent_config-Moves) depth 9
updated_or_replayed-Moves env id input c dedupe (some recorded) = search (moves_rules, read_rules)

pub Moves-update_agent :
    (env : Env) (input : AgentInput) → Others env → Moves (update_agent env input)
unfolding update_agent
Moves-update_agent env input o =
    search
      (
        moves_rules, read_rules, Moves-require_operator_capability, validate_agent_config-Moves,
        updated_or_replayed-Moves,
      )
      depth 14
