-- ===== src/Examples/Jobs.antt =====
-- Jobs of a session, named by numbers.
use rsp.Base.{ℕ, ◌≡◌, ◌⊎◌, refl, true, false, [], ◌∷◌, ◌++◌, nat_key, is_empty, map}
use rsp.Base.Map.{find, insert}
use rsp.JobScheduler.{
  Scheduler, cancels, pushes, dones, shuts, init, run_front, run_job, push_and_run, step, run,
}
use rsp.JobScheduler.Pushes.{IsValid, Live}
use rsp.JobScheduler.Serial.{init-IsValid, run-IsValid, one-Live}
use rsp.JobScheduler.Order.{waiting, started, pushed, started-run, run-shutdown}

abbrev busy : Scheduler ℕ
busy = (run init (pushes 7 ∷ pushes 8 ∷ [])).1

busy-IsValid : IsValid busy
busy-IsValid = run-IsValid init (pushes 7 ∷ pushes 8 ∷ []) init-IsValid

open_busy : busy.stopped ≡ false
unfolding init run step push_and_run run_front run_job
open_busy = refl

Live-busy : Live busy 0
unfolding init run step push_and_run run_front run_job find insert
Live-busy = refl

one-Live_example :
    (◌≡◌ {A = ℕ} 0 0)
    × (((run {J = ℕ} init (pushes 7 ∷ pushes 8 ∷ [])).1.stopped ≡ true)
        ⊎ (is_empty (run {J = ℕ} init (pushes 7 ∷ pushes 8 ∷ [])).1.q ≡ false))
one-Live_example = one-Live (pushes 7 ∷ pushes 8 ∷ []) 0 0 Live-busy Live-busy

started-run_example :
    waiting busy ++ pushed (pushes 9 ∷ dones 0 ∷ [])
    ≡ started (run busy (pushes 9 ∷ dones 0 ∷ [])).0
      ++ waiting (run busy (pushes 9 ∷ dones 0 ∷ [])).1
started-run_example = started-run busy (pushes 9 ∷ dones 0 ∷ []) busy-IsValid open_busy tt

run-shutdown_example :
    (run busy (shuts ∷ pushes 9 ∷ [])).0 ≡ map cancels (busy.q ++ pushed (pushes 9 ∷ []))
run-shutdown_example = run-shutdown busy (pushes 9 ∷ []) busy-IsValid open_busy
