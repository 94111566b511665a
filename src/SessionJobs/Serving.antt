-- ===== src/SessionJobs/Serving.antt =====
-- The strand of a session to its end.
use rsp.Base.{
  ℕ, zero, suc, ◌+◌, ◌≤◌, ◌≡◌, refl, sym, ap, ◌∙◌, Bool, true, false, List, [], ◌∷◌, ◌++◌,
  append_assoc, append-nil, length, arith, count, bit,
}
use rsp.RoomJobs.{Session}
use rsp.SessionJobs.{
  SessionJob, job_login, job_logout, job_stop, job_forward_message, job_cli_forward_message,
  job_ntf_leave_room_message, Effect, stops, completes, run, serve,
}

abbrev pub is_logout : SessionJob → Bool
is_logout job_logout = true
is_logout j = false

-- The jobs one after the other, without what they post.
abbrev pub in_turn : List SessionJob → Session → List Effect × Session
in_turn [] s = ([], s)
in_turn (j ∷ js) s = let r = run j s in let rest = in_turn js r.2 in (r.0 ++ rest.0, rest.1)

abbrev pub stop_jobs : ℕ → List SessionJob
stop_jobs zero = []
stop_jobs (suc n) = job_stop false ∷ stop_jobs n

abbrev pub stop_effects : ℕ → List Effect
stop_effects zero = []
stop_effects (suc n) = stops false ∷ completes ∷ stop_effects n

stop_jobs-snoc : (k : ℕ) → stop_jobs k ++ job_stop false ∷ [] ≡ stop_jobs (suc k)
stop_jobs-snoc zero = refl
stop_jobs-snoc (suc k) = ap (◌∷◌ (job_stop false)) (stop_jobs-snoc k)

serve-nil : (n : ℕ) (s : Session) → serve n [] s ≡ ([], s)
unfolding serve
serve-nil zero s = refl
serve-nil (suc n) s = refl

serve-stop_jobs : (n k : ℕ) (s : Session) → k ≤ n → serve n (stop_jobs k) s ≡ (stop_effects k, s)
unfolding serve run
serve-stop_jobs n zero s h = serve-nil n s
serve-stop_jobs zero (suc k) s h = ground (arith, h)
serve-stop_jobs (suc n) (suc k) s h =
    ap (λ q. (let r = serve n q s in (stops false ∷ completes ∷ r.0, r.1)))
      (append-nil (stop_jobs k))
    ∙ ap (λ r. (stops false ∷ completes ∷ r.0, r.1)) (serve-stop_jobs n k s (omega (arith, h)))

-- A logout posts one stop, and no other job posts any.
run-stop_jobs : (j : SessionJob) (s : Session) → (run j s).1 ≡ stop_jobs (bit (is_logout j))
unfolding run
run-stop_jobs (job_login uid) s = refl
run-stop_jobs job_logout s = refl
run-stop_jobs (job_stop force_close) s = refl
run-stop_jobs (job_forward_message message) s = refl
run-stop_jobs (job_cli_forward_message uid type sender message) s = refl
run-stop_jobs (job_ntf_leave_room_message reason kickout_reason) s = refl

stop_jobs-append : (k : ℕ) (b : Bool) → stop_jobs k ++ stop_jobs (bit b) ≡ stop_jobs (k + bit b)
stop_jobs-append k true = stop_jobs-snoc k ∙ ap stop_jobs {x = suc k} (omega arith)
stop_jobs-append k false = append-nil (stop_jobs k) ∙ ap stop_jobs {x = k} (omega arith)

posted-run :
    (j : SessionJob) (s : Session) (js : List SessionJob) (k : ℕ)
    → (js ++ stop_jobs k) ++ (run j s).1 ≡ js ++ stop_jobs (k + bit (is_logout j))
posted-run j s js k =
    append_assoc js (stop_jobs k) (run j s).1
    ∙ ap (λ q. js ++ q)
        (ap (λ p. stop_jobs k ++ p) (run-stop_jobs j s) ∙ stop_jobs-append k (is_logout j))

serve-in_turn :
    (n k : ℕ) (js : List SessionJob) (s : Session)
    → length js + (k + count is_logout js) ≤ n
    → serve n (js ++ stop_jobs k) s
      ≡ ((in_turn js s).0 ++ stop_effects (k + count is_logout js), (in_turn js s).1)
unfolding serve
serve-in_turn n k [] s h =
    serve-stop_jobs n k s (omega (arith, h)) ∙ ap (λ m. (stop_effects m, s)) (omega arith)
serve-in_turn zero k (j ∷ js) s h = ground (arith, h)
serve-in_turn (suc n) k (j ∷ js) s h =
    let r = run j s in
    ap (λ q. (let later = serve n q r.2 in (r.0 ++ later.0, later.1))) (posted-run j s js k)
    ∙ ap (λ later. (r.0 ++ later.0, later.1))
        (serve-in_turn n (k + bit (is_logout j)) js r.2 (omega (arith, h)))
    ∙ ap (λ es. (es, (in_turn js r.2).1))
        (sym (
            append_assoc r.0 (in_turn js r.2).0
              (stop_effects (k + bit (is_logout j) + count is_logout js)))
          ∙ ap (λ m. (r.0 ++ (in_turn js r.2).0) ++ stop_effects m) (omega arith))

-- With a round for each job and for each logout the strand comes to its end: all jobs that are
-- posted have had their effects, in their order, and then the connection is stopped once for each
-- logout; so the response to a logout and all that was posted before the stop goes out first.
pub serve-stops :
    (n : ℕ) (js : List SessionJob) (s : Session)
    → length js + count is_logout js ≤ n
    → serve n js s ≡ ((in_turn js s).0 ++ stop_effects (count is_logout js), (in_turn js s).1)
serve-stops n js s h =
    ap (λ q. serve n q s) (sym (append-nil js))
    ∙ serve-in_turn n 0 js s (omega (arith, h))
    ∙ ap (λ m. ((in_turn js s).0 ++ stop_effects m, (in_turn js s).1)) (omega arith)
