-- ===== src/Service/Create/Sources.antt =====
-- What a task may be made from: `createWorkTask` with `validateSourceTask` and
-- `validateRetryTarget` (internal/core/task_create.go, task.go).
use mathlib.Core.Path.{subst}
use coordplane.Prelude.{
  ◌≡◌, refl, ap, ◌∙◌, String, true, false, not, ◌&&◌, ◌||◌, Option, some, ◌==◌, string_eq, arith,
}
use coordplane.Result.{ok}
use coordplane.Model.{
  Project, Run, Task, ProjectStatus, TaskStatus, project_status_eq, task_status_eq,
}
use coordplane.Table.{find}
use coordplane.Db.{Db}
use coordplane.Exec.{Env, World}
use coordplane.Exec.Rules.{reads-ok}
use coordplane.Exec.ReadOnly.{
  ReadOnly, ReadOnly-pure, ReadOnly-if, ReadOnly-demand, ReadOnly-bind, ReadOnly-lift,
}
use coordplane.Tx.Tasks.{task, project, task_id, project_id as project_key}
use coordplane.Service.Common.{Actor}
use coordplane.Service.Auth.{authenticate_run, run_can_read_task}
use coordplane.Service.Auth.Scope.{found-ok, task-ok, authenticate_run-ActsOn}
use coordplane.Service.Send.FromAgent.{active_project}
use coordplane.Service.Create.{
  WorkTask, TaskSources, validate_source_task, validate_retry_target, creator, source_of, retry_of,
  task_sources,
}

-- What a request reads, on the database `d`: the row of the project, which is active, a captured
-- result of the project, and a task of the project that is closed, each under the name given.
pub record Active (d : Db) (project_id : String) (p : Project) : Type 0 where
  pub is_there : find project_key project_id d.projects ≡ some p
  pub status : p.status ≡ ProjectStatus.active

pub record Captured (d : Db) (project_id id : String) (source : Task) : Type 0 where
  pub is_there : find task_id id d.tasks ≡ some source
  pub project : source.project_id ≡ project_id
  pub status :
      (source.status == TaskStatus.submitted || source.status == TaskStatus.completed) ≡ true
  pub complete :
      (source.head_sha == "" || source.head_run_id == "" || source.task_ref == "") ≡ false

pub record Closed (d : Db) (project_id id : String) (target : Task) : Type 0 where
  pub is_there : find task_id id d.tasks ≡ some target
  pub project : target.project_id ≡ project_id
  pub status :
      (target.status == TaskStatus.completed || target.status == TaskStatus.cancelled) ≡ true

-- What an agent may read from its run.
pub record Readable (actor : Actor) (parent source : Task) : Type 0 where
  pub scope : (actor.kind == "agent" && not (run_can_read_task actor.run parent source)) ≡ false

captured :
    (d : Db) (project_id id : String) (source : Task) (u : Unit {0})
    → find task_id id d.tasks ≡ some source
    → validate_source_task project_id source ≡ ok u
    → Captured d project_id id source
unfolding validate_source_task
captured d project_id id source u f h = record {
  is_there = f;
  project = ground (arith, string_eq.beq_iff source.project_id project_id);
  status = ground arith;
  complete = ground arith;
}

closed :
    (d : Db) (project_id id : String) (target : Task) (u : Unit {0})
    → find task_id id d.tasks ≡ some target
    → validate_retry_target project_id target ≡ ok u
    → Closed d project_id id target
unfolding validate_retry_target
closed d project_id id target u f h = record {
  is_there = f;
  project = ground (arith, string_eq.beq_iff target.project_id project_id);
  status = ground arith;
}

readable :
    (actor : Actor) (parent source : Task)
    → not (actor.kind == "agent" && not (run_can_read_task actor.run parent source)) ≡ true
    → Readable actor parent source
readable actor parent source h = record { scope = ground arith }

no_name {ℓ} : {A : Type ℓ} (id : String) → (id == "") ≡ true → (id == "") ≡ false → A
no_name id p q = absurd (ground arith)

module _ (d : Db) where
  looked_up_task :
      (k : String) → ReadOnly d (λ (t : Task). find task_id k d.tasks ≡ some t) (task k)
  looked_up_task k = record {
    returns = λ t w w' e h.
        let (f, q) = task-ok k t w w' h in
        (ap (λ (v : World). v.db) q ∙ e, subst (λ (b : Db). find task_id k b.tasks ≡ some t) e f);
  }

  looked_up_project :
      (k : String)
      → ReadOnly d (λ (p : Project). find project_key k d.projects ≡ some p) (project k)
  unfolding project
  looked_up_project k = record {
    returns = λ p w w' e h.
        let (f, q) = found-ok "project" k _ p w w' (reads-ok _ _ p w w' h) in
        (
          ap (λ (v : World). v.db) q ∙ e,
          subst (λ (b : Db). find project_key k b.projects ≡ some p) e f,
        );
  }

  active_project-Active : (k : String) → ReadOnly d (Active d k) (active_project k)
  unfolding active_project
  active_project-Active k = ReadOnly-bind _ _ (looked_up_project k) λ p f.
      ReadOnly-demand _ _ _ λ a. ReadOnly-pure _ (record {
        is_there = f;
        status = ground (arith, project_status_eq.beq_iff p.status ProjectStatus.active);
      })

  -- Without a name there is no row to speak of.
  source_of-Captured :
      (seen : Option TaskSources) (actor : Actor) (parent : Task) (project_id id : String)
      → ReadOnly d
          (λ (t : Task). (id == "") ≡ false → Captured d project_id id t × Readable actor parent t)
          (source_of seen actor parent project_id id)
  unfolding source_of
  source_of-Captured seen actor parent project_id id =
      ReadOnly-if _ _ _ (λ z. ReadOnly-pure _ (no_name id z))
        (λ n. ReadOnly-bind _ _ (looked_up_task id) λ t f. ReadOnly-demand _ _ _ λ a.
          ReadOnly-demand _ _ _ λ b. ReadOnly-lift _ _ λ u v.
            ReadOnly-pure _ (λ _. (captured d project_id id t u f v, readable actor parent t a)))

  retry_of-Closed :
      (seen : Option TaskSources) (project_id id : String)
      → ReadOnly d
          (λ (t : Task). (id == "") ≡ false → Closed d project_id id t)
          (retry_of seen project_id id)
  unfolding retry_of
  retry_of-Closed seen project_id id =
      ReadOnly-if _ _ _ (λ z. ReadOnly-pure _ (no_name id z))
        (λ n. ReadOnly-bind _ _ (looked_up_task id) λ t f.
          ReadOnly-demand _ _ _
            λ b. ReadOnly-lift _ _ λ u v. ReadOnly-pure _ (λ _. closed d project_id id t u f v))

-- The facts of a request that names a source and a task to retry, where it names them.
pub record Sound (d : Db) (source_id retry_id : String) (facts : TaskSources) : Type 0 where
  pub project : Active d facts.project_id facts.project
  pub source : (source_id == "") ≡ false → Captured d facts.project_id source_id facts.source
  pub readable : (source_id == "") ≡ false → Readable facts.actor facts.parent facts.source
  pub retry : (retry_id == "") ≡ false → Closed d facts.project_id retry_id facts.retry

-- An agent is let in by its token, and nothing is written.
authenticated :
    (d : Db) (env : Env) (token : String)
    → ReadOnly d (λ (q : Run × Task). Unit {0}) (authenticate_run env token)
authenticated d env token = record {
  returns = λ q w w' e h.
      let (_, k) = authenticate_run-ActsOn env token q.0 q.1 w w' h in
      (ap (λ (v : World). v.db) k ∙ e, tt);
}

creator-ReadOnly :
    (d : Db) (env : Env) (input : WorkTask) (actor : Actor)
    → ReadOnly d (λ (c : Actor × Task × String). Unit {0}) (creator env input actor)
unfolding creator
creator-ReadOnly d env input actor =
    ReadOnly-if (actor.kind == "agent") _ _
      (λ a. ReadOnly-bind _ _ (authenticated d env input.token) λ c _. ReadOnly-pure _ tt)
      (λ a. ReadOnly-pure _ tt)

task_sources-ReadOnly :
    (d : Db) (env : Env) (input : WorkTask) (actor : Actor) (seen : Option TaskSources)
    → ReadOnly d
        (Sound d input.source_task_id input.retry_of_task_id)
        (task_sources env input actor seen)
unfolding task_sources
task_sources-ReadOnly d env input actor seen =
    ReadOnly-bind _ _ (creator-ReadOnly d env input actor) λ c _.
      ReadOnly-bind _ _ (active_project-Active d c.2) λ p a. ReadOnly-demand _ _ _ λ _.
        ReadOnly-bind _ _ (source_of-Captured d seen c.0 c.1 c.2 input.source_task_id) λ source s.
          ReadOnly-bind _ _ (retry_of-Closed d seen c.2 input.retry_of_task_id) λ retry r.
            ReadOnly-pure _
              (record { project = a; source = λ n. (s n).0; readable = λ n. (s n).1; retry = r })

pub task_sources-Sound :
    (env : Env) (input : WorkTask) (actor : Actor) (seen : Option TaskSources) (facts : TaskSources)
    (w w' : World)
    → task_sources env input actor seen w ≡ (ok facts, w')
    → (w'.db ≡ w.db) × Sound w.db input.source_task_id input.retry_of_task_id facts
task_sources-Sound env input actor seen facts w w' h =
    (task_sources-ReadOnly w.db env input actor seen).returns facts w w' refl h
