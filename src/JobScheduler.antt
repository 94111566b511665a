-- ===== src/JobScheduler.antt =====
-- job_scheduler.hpp (rsp-libs/include/rsplib/job): the jobs of a session run one at a time. A job's
-- `run` and `cancel` are what a call of the scheduler makes happen, returned as a list; a `done`
-- callback is called later, or at once, as an operation of its own. `completed` holds the flags that
-- those callbacks share, under the number of the run.
pub mod Pushes
pub mod Serial
pub mod Order
use rsp.Base.{
  ℕ, suc, Bool, true, false, Option, none, some, List, [], ◌∷◌, ◌++◌, if◌then◌else◌, map, nat_key,
}
use rsp.Base.Map.{Map, find, insert}

pub record Scheduler (J : Type 0) : Type 0 where
  pub q : List J
  pub running : Bool
  pub stopped : Bool
  pub completed : Map ℕ Bool
  pub next_run : ℕ

-- `runs j n` is j->run(done), with the done callback number n; `cancels j` is
-- j->cancel(cancel_reason::kShutdown).
pub data Action (J : Type 0) : Type 0 where
  runs : J → ℕ → Action J
  cancels : J → Action J

module _ {J : Type 0} where
  unfoldable pub init : Scheduler J
  init = record { q = []; running = false; stopped = false; completed = []; next_run = 0 }

  -- run(current)
  unfoldable pub run_job : J → Scheduler J → List (Action J) × Scheduler J
  run_job j s = (
    runs j s.next_run ∷ [],
    record s { completed = insert s.next_run false s.completed; next_run = suc s.next_run },
  )

  -- q_.front() is run; there is one whenever the code asks for it.
  unfoldable pub run_front : List J → Scheduler J → List (Action J) × Scheduler J
  unfolding run_job
  run_front [] s = ([], s)
  run_front (j ∷ rest) s = run_job j s

  unfoldable pub push_and_run : J → Scheduler J → List (Action J) × Scheduler J
  unfolding run_front
  push_and_run j s =
      if s.stopped
      then (cancels j ∷ [], s)
      else (let queue = s.q ++ j ∷ [] in
          if s.running
          then ([], record s { q = queue })
          else run_front queue (record s { q = queue; running = true }))

  -- The queue behind its front, once the front is done.
  unfoldable pub go_on : List J → Scheduler J → List (Action J) × Scheduler J
  unfolding run_job
  go_on [] s = ([], record s { q = []; running = false })
  go_on (j ∷ rest) s = run_job j (record s { q = j ∷ rest })

  unfoldable pub complete_current : Scheduler J → List (Action J) × Scheduler J
  unfolding go_on
  complete_current s = elim s.q [ [] ↦ ([], s) | j ∷ rest ↦ go_on rest s ]

  -- The done callback of run n: a second call does nothing.
  unfoldable pub done : ℕ → Scheduler J → List (Action J) × Scheduler J
  unfolding complete_current
  done n s = elim (find n s.completed) [
    | some false ↦ complete_current (record s { completed = insert n true s.completed })
    | _ ↦ ([], s)
  ]

  unfoldable pub shutdown : Scheduler J → List (Action J) × Scheduler J
  shutdown s =
      if s.stopped
      then ([], s)
      else (map cancels s.q, record s { q = []; running = false; stopped = true })

  unfoldable pub clear : Scheduler J → Scheduler J
  clear s = record s { q = [] }

-- The calls from outside. `clear` is the destructor's.
pub data Event (J : Type 0) : Type 0 where
  pushes : J → Event J
  dones : ℕ → Event J
  shuts : Event J

module _ {J : Type 0} where
  unfoldable pub step : Scheduler J → Event J → List (Action J) × Scheduler J
  unfolding push_and_run done shutdown
  step s (pushes j) = push_and_run j s
  step s (dones n) = done n s
  step s shuts = shutdown s

  unfoldable pub run : Scheduler J → List (Event J) → List (Action J) × Scheduler J
  unfolding step
  run s [] = ([], s)
  run s (e ∷ es) = let (now, s') = step s e in let (later, s'') = run s' es in (now ++ later, s'')
