-- ===== src/Service/Projects/Upkeep/Archives.antt =====
-- What archiving a project leaves.
use coordplane.Prelude.{◌≡◌, String}
use coordplane.Result.{ok}
use coordplane.Model.{Project, ProjectStatus}
use coordplane.Text.{trim_space}
use coordplane.Exec.{Env, World}
use coordplane.Service.Projects.Upkeep.{archive_writes, archive_project}
use coordplane.Steps.Moves.{Others, moves_rules}
use coordplane.Steps.Settled.{ProjectIs, ProjectIs-Stable}
use coordplane.Steps.Leaves.{Leaves, Leaves-transact, Leaves-lift, Anywhere, leaves_rules}
use coordplane.Steps.Leaves.Reads.{Leaves-project}
use coordplane.Steps.Leaves.Writes.{left_writes}
use coordplane.Steps.Owners.{owner_rules}
use coordplane.Steps.Writes.{write_rules}
use coordplane.Steps.Control.{read_rules}

archive_writes-Leaves :
    (env : Env) (request k : String) (p : Project)
    → p.id ≡ k
    → Leaves Anywhere (ProjectIs ProjectStatus.archived k) (archive_writes env request p)
unfolding archive_writes
archive_writes-Leaves env request k p i = Leaves-lift _ _ (λ u h.
    search (leaves_rules, left_writes, ProjectIs-Stable, moves_rules, write_rules, owner_rules)
      depth 12)

archived-Leaves :
    (env : Env) (id request : String)
    → Others env
    → Leaves Anywhere
        (ProjectIs ProjectStatus.archived (trim_space id))
        (archive_project env id request)
unfolding archive_project
archived-Leaves env id request o =
    search
      (
        Leaves-transact, Leaves-project, leaves_rules, moves_rules, read_rules,
        archive_writes-Leaves,
      )
      depth 12

-- A request to archive a project that is answered without an error leaves the project archived.
pub archive_project-Archives :
    (env : Env) (id request : String) (p : Project) (w w' : World)
    → Others env
    → archive_project env id request w ≡ (ok p, w')
    → ProjectIs ProjectStatus.archived (trim_space id) w'.db
archive_project-Archives env id request p w w' o h =
    (archived-Leaves env id request o).leaves p w w' tt h
