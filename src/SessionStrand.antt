-- ===== src/SessionStrand.antt =====
-- session.hpp (rsp-svr/user): the strand of a session, on which its scheduler takes the jobs that are
-- posted, and the end of the session when its connection is lost. A job is a value of an abstract
-- type; `Action` is what the scheduler makes of it.
use rsp.Base.{◌≡◌, refl, ap, Bool, true, false, List, [], ◌∷◌, ◌++◌}
use rsp.JobScheduler.{
  Scheduler, Action, Event, pushes, shuts, init, push_and_run, shutdown, step as schedule,
  run as run_events,
}

-- The two lambdas that are posted.
pub data Task (J : Type 0) : Type 0 where
  pushes_job : J → Task J
  disconnects : Task J

pub record SessionStrand (J : Type 0) : Type 0 where
  pub strand : List (Task J)
  pub scheduler : Scheduler J
  pub stop_requested : Bool

module _ {J : Type 0} where
  abbrev pub new_session : SessionStrand J
  new_session = record { strand = []; scheduler = init; stop_requested = false }

  unfoldable pub enqueue_job : J → SessionStrand J → SessionStrand J
  enqueue_job j s = record s { strand = s.strand ++ pushes_job j ∷ [] }

  unfoldable pub on_disconnected : SessionStrand J → SessionStrand J
  on_disconnected s = record s { strand = s.strand ++ disconnects ∷ [] }

  -- link::stop, which stops the connection, is not the session's.
  unfoldable pub stop : SessionStrand J → SessionStrand J
  stop s = record s { stop_requested = true }

  unfoldable pub run_task : Task J → SessionStrand J → List (Action J) × SessionStrand J
  unfolding push_and_run shutdown
  run_task (pushes_job j) s =
      let (actions, scheduler) = push_and_run j s.scheduler in
      (actions, record s { scheduler = scheduler })
  run_task disconnects s =
      let (actions, scheduler) = shutdown s.scheduler in
      (actions, record s { scheduler = scheduler; stop_requested = true })

  -- The tasks run one after the other.
  unfoldable pub run_tasks : List (Task J) → SessionStrand J → List (Action J) × SessionStrand J
  unfolding run_task
  run_tasks [] s = ([], s)
  run_tasks (t ∷ ts) s =
      let (now, s') = run_task t s in let (later, s'') = run_tasks ts s' in (now ++ later, s'')

  abbrev pub event_of : Task J → Event J
  event_of (pushes_job j) = pushes j
  event_of disconnects = shuts

  abbrev pub events_of : List (Task J) → List (Event J)
  events_of [] = []
  events_of (t ∷ ts) = event_of t ∷ events_of ts

  -- The strand makes of the tasks what the scheduler makes of the events, so that its laws hold of
  -- the session.
  pub run_tasks-run_events :
      (ts : List (Task J)) (s : SessionStrand J)
      → ((run_tasks ts s).0 ≡ (run_events s.scheduler (events_of ts)).0)
        × ((run_tasks ts s).1.scheduler ≡ (run_events s.scheduler (events_of ts)).1)
  unfolding run_tasks run_events schedule
  run_tasks-run_events [] s = (refl, refl)
  run_tasks-run_events (pushes_job j ∷ ts) s =
      let k = run_tasks-run_events ts (run_task (pushes_job j) s).1 in
      (ap (λ l. (push_and_run j s.scheduler).0 ++ l) k.0, k.1)
  run_tasks-run_events (disconnects ∷ ts) s =
      let k = run_tasks-run_events ts (run_task disconnects s).1 in
      (ap (λ l. (shutdown s.scheduler).0 ++ l) k.0, k.1)
