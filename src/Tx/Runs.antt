-- ===== src/Tx/Runs.antt =====
-- The table `runs` of internal/store/tx.go.
use coordplane.Prelude.{
  ℕ, String, Bool, ◌&&◌, ◌||◌, Option, none, some, List, [], ◌∷◌, ◌++◌, ◌==◌, nat_eq, string_eq,
  if◌then◌else◌, count_where,
}
use coordplane.Model.{Run, RunState, run_state_eq, run_state_text}
use coordplane.Table.{find, replace}
use coordplane.Db.Schema.{is_live}
use coordplane.Exec.{Exec, raise, reads, ◌>>=◌, ◌>>◌, demand}
use coordplane.Text.{trim_space}
use coordplane.Tx.Tasks.{found}
use coordplane.Tx.Writes.{write, not_found_error, changed_error}

abbrev pub run_id : Run → String
run_id r = r.id

abbrev pub run_token_hash : Run → String
run_token_hash r = r.token_hash

unfoldable pub run : String → Exec Run
unfolding found
run id = do row ← reads (λ d. find run_id id d.runs); found "run" id row

-- `RunByTokenHash`, with `none` for the code NOT_FOUND that its caller tests for.
unfoldable pub run_by_token_hash : String → Exec (Option Run)
run_by_token_hash token_hash = reads λ d. find run_token_hash token_hash d.runs

unfoldable pub insert_run : Run → Exec (Unit {0})
insert_run r = do d ← reads (λ d. d); write (record d { runs = d.runs ++ r ∷ [] })

abbrev normalized_isolation_spec_version : Run → ℕ
normalized_isolation_spec_version r =
    if r.isolation_spec_version == 0 then 2 else r.isolation_spec_version

-- The columns that `UPDATE runs SET` leaves out keep the row's values.
unfoldable pub run_columns : Run → Run → Run
run_columns row r = record r {
  id = row.id;
  project_id = row.project_id;
  task_id = row.task_id;
  agent_id = row.agent_id;
  generation = row.generation;
  adapter_id = row.adapter_id;
  image = row.image;
  token_hash = row.token_hash;
  created_at = row.created_at;
  isolation_spec_version = normalized_isolation_spec_version r;
}

unfoldable pub set_run : Run → ℕ → RunState → Option Run → Exec (Unit {0})
set_run r version state none = raise (not_found_error "run" r.id)
set_run r version state (some row) = do
  demand (row.version == version && row.state == state)
      (changed_error "run" r.id (run_state_text row.state) row.version)
  d ← reads (λ d. d)
  write (record d { runs = replace run_id (run_columns row r) d.runs })

-- `UPDATE runs SET … WHERE id=? AND version=? AND state=?`.
unfoldable pub update_run : Run → ℕ → RunState → Exec (Unit {0})
unfolding set_run
update_run r expected_version expected_state = do
  row ← reads (λ d. find run_id r.id d.runs)
  set_run r expected_version expected_state row

unfoldable pub live_runs : List Run → ℕ
live_runs runs = count_where (λ (r : Run). is_live r.state) runs

-- `LiveRunCount("", "")`, the only call of it.
unfoldable pub live_run_count : Exec ℕ
unfolding live_runs
live_run_count = reads λ d. live_runs d.runs

abbrev occupies : String → Run → Bool
occupies agent_id r =
    r.agent_id == agent_id
    && (is_live r.state || r.cleanup_state == "pending" || r.cleanup_state == "blocked")

unfoldable pub occupancy : String → List Run → ℕ
occupancy agent_id runs = count_where (occupies agent_id) runs

unfoldable pub agent_runtime_occupancy : String → Exec ℕ
unfolding occupancy
agent_runtime_occupancy agent_id = reads λ d. occupancy (trim_space agent_id) d.runs
