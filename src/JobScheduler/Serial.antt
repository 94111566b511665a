-- ===== src/JobScheduler/Serial.antt =====
-- One job at a time.
use rsp.Base.{
  is_empty, ℕ, ◌<◌, ◌≡◌, ◌≢◌, ◌⊎◌, refl, sym, subst, true, false, some, List, [], ◌∷◌, nat_key,
  arith, ==_iff, Bool-cases, inl, inr, is_some, map, ap,
}
use rsp.Base.Map.{find, insert, find-insert}
use rsp.JobScheduler.{
  Scheduler, cancels, Event, pushes, dones, shuts, init, go_on, complete_current, done, shutdown,
  step, run,
}
use rsp.JobScheduler.Pushes.{IsValid, Live, go_on-IsValid, push_and_run-IsValid, quiet_after}

module _ {J : Type 0} where
  -- The flag of run n is set.
  unfoldable pub marked : ℕ → Scheduler J → Scheduler J
  marked n s = record s { completed = insert n true s.completed }

  pub done-Live : (n : ℕ) (s : Scheduler J) → Live s n → done n s ≡ complete_current (marked n s)
  unfolding done marked
  done-Live n s live = ground arith

  pub done_again : (n : ℕ) (s : Scheduler J) → find n s.completed ≢ some false → done n s ≡ ([], s)
  unfolding done
  done_again n s dead = ground arith

  marked-issued :
      (n m : ℕ) (s : Scheduler J)
      → IsValid s
      → Live s n
      → is_some (find m (marked n s).completed) ≡ true
      → m < s.next_run
  unfolding marked
  marked-issued n m s v live h =
      ground (arith, v.issued m, v.issued n, find-insert m n true s.completed, ==_iff m n)

  pub shutdown_again : (s : Scheduler J) → s.stopped ≡ true → shutdown s ≡ ([], s)
  unfolding shutdown
  shutdown_again s h = ground arith

  pub shutdown_first :
      (s : Scheduler J)
      → s.stopped ≡ false
      → shutdown s ≡ (map cancels s.q, record s { q = []; running = false; stopped = true })
  unfolding shutdown
  shutdown_first s h = ground arith

  pub complete_none : (s : Scheduler J) → s.q ≡ [] → complete_current s ≡ ([], s)
  unfolding complete_current
  complete_none s e = ground arith

  pub complete_next :
      (s : Scheduler J) (j : J) (rest : List J) → s.q ≡ j ∷ rest → complete_current s ≡ go_on rest s
  unfolding complete_current
  complete_next s j rest e = ground arith

  complete_current-IsValid :
      (n : ℕ) (s : Scheduler J) (q : List J)
      → s.q ≡ q
      → IsValid s
      → Live s n
      → IsValid (complete_current (marked n s)).1
  unfolding marked
  complete_current-IsValid n s [] e v live =
      subst (λ r. IsValid r.1) (sym (complete_none (marked n s) e))
        (record {
          issued = λ m. marked-issued n m s v live;
          last = λ m h. absurd (quiet_after n m s v live h);
          busy = λ h. absurd (v.idle n h (ap is_empty e) live);
          idle = λ m h k. quiet_after n m s v live;
          halted = λ h. v.halted h;
        })
  complete_current-IsValid n s (j ∷ rest) e v live =
      let open' : s.stopped ≡ false = ground (arith, v.halted) in
      let busy : s.running ≡ true = ground (arith, v.busy open') in
      subst (λ r. IsValid r.1) (sym (complete_next (marked n s) j rest e))
        (go_on-IsValid rest (marked n s) (λ m. marked-issued n m s v live)
          (λ m. quiet_after n m s v live) busy open')

  done-IsValid : (n : ℕ) (s : Scheduler J) → IsValid s → IsValid (done n s).1
  done-IsValid n s v =
      elim (Bool-cases (elim (find n s.completed) [ some false ↦ true | _ ↦ false ])) [
        | inl live ↦
            let live' : Live s n = ground arith in
            subst (λ r. IsValid r.1) (sym (done-Live n s live'))
              (complete_current-IsValid n s s.q refl v live')
        | inr dead ↦ subst (λ r. IsValid r.1) (sym (done_again n s (λ h. ground arith))) v
      ]

  shutdown-IsValid : (s : Scheduler J) → IsValid s → IsValid (shutdown s).1
  shutdown-IsValid s v = elim (Bool-cases s.stopped) [
    | inl shut ↦ subst (λ r. IsValid r.1) (sym (shutdown_again s shut)) v
    | inr open' ↦
        subst (λ r. IsValid r.1) (sym (shutdown_first s open'))
          (record {
            issued = v.issued;
            last = v.last;
            busy = λ h. cc;
            idle = λ n h. cc;
            halted = λ h. (refl, refl);
          })
  ]

  pub step-IsValid : (s : Scheduler J) (e : Event J) → IsValid s → IsValid (step s e).1
  unfolding step
  step-IsValid s (pushes j) v = push_and_run-IsValid j s v
  step-IsValid s (dones n) v = done-IsValid n s v
  step-IsValid s shuts v = shutdown-IsValid s v

  pub run-IsValid : (s : Scheduler J) (es : List (Event J)) → IsValid s → IsValid (run s es).1
  unfolding run
  run-IsValid s [] v = v
  run-IsValid s (e ∷ es) v = run-IsValid (step s e).1 es (step-IsValid s e v)

  pub init-IsValid : IsValid (init {J = J})
  unfolding init find
  init-IsValid = record {
    issued = λ n h. cc;
    last = λ n h. cc;
    busy = λ h. refl;
    idle = λ n h e k. cc;
    halted = λ h. cc;
  }

  -- Whatever jobs are pushed and whichever callbacks are called, in any order, at most one run is
  -- not done yet, and while there is one the scheduler is stopped or its queue is not empty.
  pub one-Live :
      (es : List (Event J)) (m n : ℕ)
      → Live (run init es).1 m
      → Live (run init es).1 n
      → (m ≡ n) × (((run init es).1.stopped ≡ true) ⊎ (is_empty (run init es).1.q ≡ false))
  one-Live es m n live other =
      let v = run-IsValid init es init-IsValid in
      (
        omega (arith, v.last m live, v.last n other),
        elim (Bool-cases (run init es).1.stopped) [
          | inl shut ↦ inl shut
          | inr open' ↦ elim (Bool-cases (is_empty (run init es).1.q)) [
            | inl e ↦ absurd (v.idle m open' e live)
            | inr e ↦ inr e
          ]
        ],
      )
