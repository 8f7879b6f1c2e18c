-- ===== src/Bridge/Lifecycle.antt =====
-- mobile-bridge/src/lifecycle.rs: starting and stopping the mesh node. A started mesh goes by a
-- number; its three tasks live until they are aborted, with the runtime that they run on.
use parda.Base.{
  ℕ, suc, ◌≡◌, Bool, Option, none, some, List, [], ◌∷◌, ◌++◌, not, nat_beq, keep_if, arith,
  if◌then◌else◌,
}
use parda.Mesh.Radio.{AdvertToken}

pub data Task : Type 0 where
  sync_loop accept_loop rotation_loop : Task

pub record Process : Type 0 where
  pub running : Option ℕ
  pub started : ℕ
  pub tasks : List (ℕ × Task)
  pub advertised : List AdvertToken

abbrev pub no_mesh : Process
no_mesh = record { running = none; started = 0; tasks = []; advertised = [] }

-- the tasks of one mesh
abbrev pub tasks_of : ℕ → List (ℕ × Task)
tasks_of n = (n, sync_loop) ∷ (n, accept_loop) ∷ (n, rotation_loop) ∷ []

-- `nativeStartMesh`, with whether the runtime starts and the first token
pub start_mesh : Bool → AdvertToken → Process → Process
start_mesh runtime_starts initial_token p = elim p.running [
  | some n ↦ p
  | none ↦
      if runtime_starts
      then record {
        running = some p.started;
        started = suc p.started;
        tasks = tasks_of p.started ++ p.tasks;
        advertised = initial_token ∷ p.advertised;
      }
      else p
]

-- `nativeStopMesh`: the tasks of the running mesh are aborted
pub stop_mesh : Process → Process
stop_mesh p = elim p.running [
  | none ↦ p
  | some n ↦ record p { running = none; tasks = keep_if (λ t. not (nat_beq t.0 n)) p.tasks }
]

pub data Command : Type 0 where
  start : (runtime_starts : Bool) (initial_token : AdvertToken) → Command
  stop : Command

pub perform : List Command → Process → Process
unfolding start_mesh stop_mesh
perform [] p = p
perform (start runtime_starts initial_token ∷ commands) p =
    perform commands (start_mesh runtime_starts initial_token p)
perform (stop ∷ commands) p = perform commands (stop_mesh p)

-- the tasks that should live
abbrev pub expected : Option ℕ → List (ℕ × Task)
expected none = []
expected (some n) = tasks_of n

start-expected :
    (runtime_starts : Bool) (token : AdvertToken) (p : Process)
    → p.tasks ≡ expected p.running
    → let p' = start_mesh runtime_starts token p in p'.tasks ≡ expected p'.running
unfolding start_mesh
start-expected runtime_starts token p h = ground arith

stop-expected :
    (p : Process)
    → p.tasks ≡ expected p.running
    → let p' = stop_mesh p in p'.tasks ≡ expected p'.running
unfolding stop_mesh
stop-expected p h = ground arith

-- Whatever starts and stops the application asks for, the tasks that live are the three of the mesh
-- that is running, and none where none is.
pub perform-expected :
    (commands : List Command) (p : Process)
    → p.tasks ≡ expected p.running
    → let p' = perform commands p in p'.tasks ≡ expected p'.running
unfolding perform
perform-expected [] p h = h
perform-expected (start runtime_starts token ∷ commands) p h =
    perform-expected commands (start_mesh runtime_starts token p)
      (start-expected runtime_starts token p h)
perform-expected (stop ∷ commands) p h = perform-expected commands (stop_mesh p) (stop-expected p h)
