-- ===== src/JobScheduler/Pushes.antt =====
-- The runs that are not done, over a push and the run of the front.
use rsp.Base.{
  is_empty, ℕ, suc, ◌<◌, ◌≡◌, ◌≢◌, refl, sym, subst, true, false, some, List, [], ◌∷◌, ◌++◌,
  nat_key, arith, ==_iff, Bool-cases, inl, inr, is_some, not,
}
use rsp.Base.Map.{find, insert, find-insert}
use rsp.JobScheduler.{Scheduler, cancels, run_job, run_front, push_and_run, go_on}

module _ {J : Type 0} where
  -- The run n has started, and its done callback was not called yet.
  abbrev pub Live : Scheduler J → ℕ → Type 0
  Live s n = find n s.completed ≡ some false

  pub record IsValid (s : Scheduler J) : Type 0 where
    pub issued : (n : ℕ) → is_some (find n s.completed) ≡ true → n < s.next_run
    pub last : (n : ℕ) → Live s n → suc n ≡ s.next_run
    pub busy : s.stopped ≡ false → s.running ≡ not (is_empty s.q)
    pub idle : (n : ℕ) → s.stopped ≡ false → is_empty s.q ≡ true → find n s.completed ≢ some false
    pub halted : s.stopped ≡ true → (s.q ≡ []) × (s.running ≡ false)

  run_job-IsValid :
      (j : J) (s : Scheduler J)
      → ((n : ℕ) → is_some (find n s.completed) ≡ true → n < s.next_run)
      → ((n : ℕ) → find n s.completed ≢ some false)
      → s.running ≡ true
      → s.stopped ≡ false
      → is_empty s.q ≡ false
      → IsValid (run_job j s).1
  unfolding run_job
  run_job-IsValid j s issued quiet busy open' some' = record {
    issued = λ n.
        ground (arith, issued n, ==_iff n s.next_run, find-insert n s.next_run false s.completed);
    last = λ n.
        ground (arith, quiet n, ==_iff n s.next_run, find-insert n s.next_run false s.completed);
    busy = λ h. ground arith;
    idle = λ n h e. cc;
    halted = λ h. cc;
  }

  is_empty-append : (q : List J) (j : J) → is_empty (q ++ j ∷ []) ≡ false
  is_empty-append [] j = refl
  is_empty-append (k ∷ q) j = refl

  run_front-IsValid :
      (j : J) (s : Scheduler J) (q : List J)
      → s.q ≡ q
      → IsValid s
      → s.running ≡ false
      → s.stopped ≡ false
      → IsValid (run_front (q ++ j ∷ []) (record s { q = q ++ j ∷ []; running = true })).1
  unfolding run_front
  run_front-IsValid j s [] e v free open' =
      run_job-IsValid j (record s { q = j ∷ []; running = true }) v.issued
        (λ n. v.idle n open' (rw e)) refl open' refl
  run_front-IsValid j s (k ∷ q) e v free open' = absurd (ground (arith, v.busy open'))

  -- `push_and_run` on its three branches.
  pub push_stopped :
      (j : J) (s : Scheduler J) → s.stopped ≡ true → push_and_run j s ≡ (cancels j ∷ [], s)
  unfolding push_and_run
  push_stopped j s h = ground arith

  pub push_running :
      (j : J) (s : Scheduler J)
      → s.stopped ≡ false
      → s.running ≡ true
      → push_and_run j s ≡ ([], record s { q = s.q ++ j ∷ [] })
  unfolding push_and_run
  push_running j s h k = ground arith

  pub push_free :
      (j : J) (s : Scheduler J)
      → s.stopped ≡ false
      → s.running ≡ false
      → push_and_run j s
        ≡ run_front (s.q ++ j ∷ []) (record s { q = s.q ++ j ∷ []; running = true })
  unfolding push_and_run
  push_free j s h k = ground arith

  queued-IsValid :
      (j : J) (s : Scheduler J)
      → IsValid s
      → s.stopped ≡ false
      → s.running ≡ true
      → IsValid (record s { q = s.q ++ j ∷ [] })
  queued-IsValid j s v open' busy = record {
    issued = v.issued;
    last = v.last;
    busy = λ h. ground (arith, is_empty-append s.q j);
    idle = λ n h e. cc (is_empty-append s.q j);
    halted = λ h. cc;
  }

  pub push_and_run-IsValid : (j : J) (s : Scheduler J) → IsValid s → IsValid (push_and_run j s).1
  push_and_run-IsValid j s v = elim (Bool-cases s.stopped) [
    | inl shut ↦ subst (λ r. IsValid r.1) (sym (push_stopped j s shut)) v
    | inr open' ↦ elim (Bool-cases s.running) [
      | inl busy ↦
          subst (λ r. IsValid r.1) (sym (push_running j s open' busy))
            (queued-IsValid j s v open' busy)
      | inr free ↦
          subst (λ r. IsValid r.1) (sym (push_free j s open' free))
            (run_front-IsValid j s s.q refl v free open')
    ]
  ]

  -- Once run n is marked as done, no run is live.
  pub quiet_after :
      (n m : ℕ) (s : Scheduler J)
      → IsValid s
      → Live s n
      → find m (insert n true s.completed) ≢ some false
  quiet_after n m s v live =
      λ h. ground (arith, v.last n live, v.last m, find-insert m n true s.completed, ==_iff m n)

  pub go_on-IsValid :
      (rest : List J) (s : Scheduler J)
      → ((n : ℕ) → is_some (find n s.completed) ≡ true → n < s.next_run)
      → ((n : ℕ) → find n s.completed ≢ some false)
      → s.running ≡ true
      → s.stopped ≡ false
      → IsValid (go_on rest s).1
  unfolding go_on
  go_on-IsValid [] s issued quiet busy open' = record {
    issued = issued;
    last = λ n h. absurd (quiet n h);
    busy = λ h. refl;
    idle = λ n h e. quiet n;
    halted = λ h. cc;
  }
  go_on-IsValid (j ∷ rest) s issued quiet busy open' =
      run_job-IsValid j (record s { q = j ∷ rest }) issued quiet busy open' refl
