-- ===== src/JobScheduler/Order.antt =====
-- Jobs run in the order in which they are pushed, and a shutdown cancels what is queued.
use rsp.Base.{
  is_empty, ℕ, ◌≡◌, refl, sym, subst, true, false, some, List, [], ◌∷◌, ◌++◌, nat_key, arith,
  Bool-cases, inl, inr, not, map, ap, ◌∙◌, append_assoc, append-nil,
}
use rsp.Base.Map.{find}
use mathlib.Core.List.{map-append}
use rsp.JobScheduler.{
  Scheduler, Action, cancels, runs, Event, pushes, dones, shuts, run_job, run_front, push_and_run,
  go_on, complete_current, done, clear, step, run,
}
use rsp.JobScheduler.Pushes.{IsValid, Live, push_stopped, push_running, push_free}
use rsp.JobScheduler.Serial.{
  step-IsValid, marked, done-Live, done_again, complete_none, complete_next, shutdown_again,
  shutdown_first,
}

module _ {J : Type 0} where
  -- The jobs behind the front: those that wait for their run.
  abbrev pub behind : List J → List J
  behind [] = []
  behind (j ∷ rest) = rest

  abbrev pub waiting : Scheduler J → List J
  waiting s = behind s.q

  abbrev pub started : List (Action J) → List J
  started [] = []
  started (runs j n ∷ as') = j ∷ started as'
  started (cancels j ∷ as') = started as'

  abbrev pub pushed : List (Event J) → List J
  pushed [] = []
  pushed (pushes j ∷ es) = j ∷ pushed es
  pushed (e ∷ es) = pushed es

  -- No shutdown among the events.
  abbrev pub Runs : List (Event J) → Type 0
  Runs [] = Unit {0}
  Runs (shuts ∷ es) = ⊥
  Runs (e ∷ es) = Runs es

  pub started-append : (a b : List (Action J)) → started (a ++ b) ≡ started a ++ started b
  started-append [] b = refl
  started-append (runs j n ∷ a) b = ap (◌∷◌ j) (started-append a b)
  started-append (cancels j ∷ a) b = started-append a b

  -- What is asked for is what waits, behind what is run.
  abbrev Keeps : List J → List (Action J) × Scheduler J → Type 0
  Keeps jobs r = (jobs ≡ started r.0 ++ waiting r.1) × (r.1.stopped ≡ false)

  run_front-Keeps :
      (j : J) (s : Scheduler J) (q : List J)
      → s.q ≡ q
      → s.stopped ≡ false
      → s.running ≡ not (is_empty s.q)
      → s.running ≡ false
      → Keeps
          (waiting s ++ j ∷ [])
          (run_front (q ++ j ∷ []) (record s { q = q ++ j ∷ []; running = true }))
  unfolding run_front
  run_front-Keeps j s [] e open' busy free = (ap (λ q. behind q ++ j ∷ []) e, open')
  run_front-Keeps j s (k ∷ q) e open' busy free = absurd (ground arith)

  queue-Keeps :
      (j : J) (s : Scheduler J) (q : List J)
      → s.q ≡ q
      → s.stopped ≡ false
      → s.running ≡ not (is_empty s.q)
      → s.running ≡ true
      → Keeps (waiting s ++ j ∷ []) ([], record s { q = s.q ++ j ∷ [] })
  queue-Keeps j s [] e open' busy held = absurd (ground arith)
  queue-Keeps j s (k ∷ q) e open' busy held =
      (ap (λ l. behind l ++ j ∷ []) e ∙ sym (ap (λ l. behind (l ++ j ∷ [])) e), open')

  push-Keeps :
      (j : J) (s : Scheduler J)
      → IsValid s
      → s.stopped ≡ false
      → Keeps (waiting s ++ j ∷ []) (push_and_run j s)
  push-Keeps j s v open' = elim (Bool-cases s.running) [
    | inl held ↦
        subst (Keeps (waiting s ++ j ∷ [])) (sym (push_running j s open' held))
          (queue-Keeps j s s.q refl open' (v.busy open') held)
    | inr free ↦
        subst (Keeps (waiting s ++ j ∷ [])) (sym (push_free j s open' free))
          (run_front-Keeps j s s.q refl open' (v.busy open') free)
  ]

  complete-Keeps :
      (n : ℕ) (s : Scheduler J) (q : List J)
      → s.q ≡ q
      → s.stopped ≡ false
      → Keeps (waiting s) (complete_current (marked n s))
  unfolding marked
  complete-Keeps n s [] e open' =
      subst (Keeps (waiting s)) (sym (complete_none (marked n s) e)) (refl, open')
  complete-Keeps n s (j ∷ []) e open' =
      subst (Keeps (waiting s)) (sym (complete_next (marked n s) j [] e))
        (unfold go_on in (ap behind e, open'))
  complete-Keeps n s (j ∷ k ∷ rest) e open' =
      subst (Keeps (waiting s)) (sym (complete_next (marked n s) j (k ∷ rest) e))
        (unfold go_on run_job in (ap behind e, open'))

  done-Keeps : (n : ℕ) (s : Scheduler J) → s.stopped ≡ false → Keeps (waiting s) (done n s)
  done-Keeps n s open' =
      elim (Bool-cases (elim (find n s.completed) [ some false ↦ true | _ ↦ false ])) [
        | inl live ↦
            subst (Keeps (waiting s)) (sym (done-Live n s (ground arith)))
              (complete-Keeps n s s.q refl open')
        | inr dead ↦
            subst (Keeps (waiting s)) (sym (done_again n s (λ h. ground arith))) (refl, open')
      ]

  chain :
      (jobs more middle rest : List J) (now later : List (Action J))
      → jobs ≡ started now ++ middle
      → middle ++ more ≡ started later ++ rest
      → jobs ++ more ≡ started (now ++ later) ++ rest
  chain jobs more middle rest now later e f =
      ap (λ l. l ++ more) e
      ∙ append_assoc (started now) middle more
      ∙ ap (λ l. started now ++ l) f
      ∙ sym (append_assoc (started now) (started later) rest)
      ∙ ap (λ l. l ++ rest) (sym (started-append now later))

  -- Until a shutdown the jobs are started in the order in which they were pushed: those that
  -- waited and those that are pushed are those that are started, followed by those that wait.
  pub started-run :
      (s : Scheduler J) (es : List (Event J))
      → IsValid s
      → s.stopped ≡ false
      → Runs es
      → waiting s ++ pushed es ≡ started (run s es).0 ++ waiting (run s es).1
  unfolding run step
  started-run s [] v open' r = append-nil (waiting s)
  started-run s (pushes j ∷ es) v open' r =
      let k = push-Keeps j s v open' in
      sym (append_assoc (waiting s) (j ∷ []) (pushed es))
      ∙ chain (waiting s ++ j ∷ []) (pushed es) (waiting (push_and_run j s).1)
          (waiting (run (push_and_run j s).1 es).1) (push_and_run j s).0
          (run (push_and_run j s).1 es).0 k.0
          (started-run (push_and_run j s).1 es (step-IsValid s (pushes j) v) k.1 r)
  started-run s (dones n ∷ es) v open' r =
      let k = done-Keeps n s open' in
      chain (waiting s) (pushed es) (waiting (done n s).1) (waiting (run (done n s).1 es).1)
        (done n s).0 (run (done n s).1 es).0 k.0
        (started-run (done n s).1 es (step-IsValid s (dones n) v) k.1 r)
  started-run s (shuts ∷ es) v open' r = absurd r

  halted-done :
      (n : ℕ) (s : Scheduler J)
      → IsValid s
      → s.stopped ≡ true
      → ((done n s).0 ≡ []) × ((done n s).1.stopped ≡ true)
  unfolding done complete_current
  halted-done n s v shut = let e = (v.halted shut).0 in ground (arith, e)

  halted-run :
      (s : Scheduler J) (es : List (Event J))
      → IsValid s
      → s.stopped ≡ true
      → (run s es).0 ≡ map cancels (pushed es)
  unfolding run step
  halted-run s [] v shut = refl
  halted-run s (pushes j ∷ es) v shut =
      rw (push_stopped j s shut) (ap (◌∷◌ (cancels j)) (halted-run s es v shut))
  halted-run s (dones n ∷ es) v shut =
      let k = halted-done n s v shut in
      ap (λ l. l ++ (run (done n s).1 es).0) k.0
      ∙ halted-run (done n s).1 es (step-IsValid s (dones n) v) k.1
  halted-run s (shuts ∷ es) v shut = rw (shutdown_again s shut) (halted-run s es v shut)

  -- A shutdown cancels the queued jobs in order, the running one first; after it no job is started,
  -- and each job that is pushed is cancelled.
  pub run-shutdown :
      (s : Scheduler J) (es : List (Event J))
      → IsValid s
      → s.stopped ≡ false
      → (run s (shuts ∷ es)).0 ≡ map cancels (s.q ++ pushed es)
  unfolding run step
  run-shutdown s es v open' =
      let halt = shutdown_first s open' in
      rw (map-append cancels s.q (pushed es), halt)
        (ap (◌++◌ (map cancels s.q))
          (halted-run _ es (subst (λ r. IsValid r.1) halt (step-IsValid s shuts v)) refl))

  -- Were `clear` called while a run is not done, the next job that is pushed would be lost: it is
  -- neither started, nor cancelled, nor queued once that run is done.
  pub clear_loses :
      (s : Scheduler J) (n : ℕ) (j : J)
      → IsValid s
      → s.stopped ≡ false
      → Live s n
      → let pushed' = push_and_run j (clear s) in
        let finished = done n pushed'.1 in
        (started (pushed'.0 ++ finished.0) ≡ [])
        × (finished.1.q ≡ [])
        × (finished.1.stopped ≡ false)
  unfolding push_and_run done complete_current clear
  clear_loses s n j v open' live =
      let busy : s.running ≡ true = ground (arith, v.busy open', v.idle n open') in
      (ground arith, ground arith, ground arith)
