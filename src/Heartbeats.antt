-- ===== src/Heartbeats.antt =====
-- session.hpp (rsp-svr/user): send_heartbeats, the coroutine that watches an idle session. A round of
-- its loop is given what it reads: stop_ before and after the wait, last_received_, and the time,
-- both in seconds. The coroutine is written for session::start, which has it commented out.
use rsp.Base.{
  ℕ, suc, ◌+◌, ◌≡◌, refl, Bool, true, false, not, ◌||◌, List, [], ◌∷◌, if◌then◌else◌, ltb, leb,
  count, arith, Bool-cases, inl, inr,
}

pub record Round : Type 0 where
  pub stop_before : Bool
  pub stop_after : Bool
  pub last_received : ℕ
  pub now : ℕ

-- A ping is sent, or enqueue_stop(true) is called.
pub data Beat : Type 0 where
  sends_ping enqueues_stop : Beat

abbrev pub ping_period : ℕ
ping_period = 5

abbrev pub max_failed_count : ℕ
max_failed_count = 3

abbrev pub is_missed : Round → Bool
is_missed r = not (ltb r.now (r.last_received + ping_period))

-- The beats of the rounds, and whether the loop has ended.
unfoldable pub heartbeats : List Round → (failed_count : ℕ) → List Beat × Bool
heartbeats [] failed_count = ([], false)
heartbeats (r ∷ rs) failed_count =
    let heard = heartbeats rs failed_count in
    let (beats, ended) = heartbeats rs (suc failed_count) in
    if r.stop_before
    then ([], true)
    else (if r.stop_after
        then ([], true)
        else (if not (is_missed r)
            then heard
            else (if leb max_failed_count (suc failed_count)
                then (enqueues_stop ∷ [], true)
                else (sends_ping ∷ beats, ended))))

unfoldable pub send_heartbeats : List Round → List Beat × Bool
unfolding heartbeats
send_heartbeats rs = heartbeats rs 0

abbrev pub is_stopped : Round → Bool
is_stopped r = r.stop_before || r.stop_after

-- The rounds before the first that sees stop_.
abbrev pub before_stop : List Round → List Round
before_stop [] = []
before_stop (r ∷ rs) = if is_stopped r then [] else r ∷ before_stop rs

abbrev pub any_stopped : List Round → Bool
any_stopped [] = false
any_stopped (r ∷ rs) = is_stopped r || any_stopped rs

-- What the loop does of which `missed` rounds are missed.
abbrev beats_from : ℕ → ℕ → List Beat
beats_from failed missed =
    if leb 3 (failed + missed)
    then (if leb 2 failed
        then enqueues_stop ∷ []
        else (if leb 1 failed
            then sends_ping ∷ enqueues_stop ∷ []
            else sends_ping ∷ sends_ping ∷ enqueues_stop ∷ []))
    else (if leb 2 missed
        then sends_ping ∷ sends_ping ∷ []
        else (if leb 1 missed then sends_ping ∷ [] else []))

heartbeats_lem :
    (rs : List Round) (failed : ℕ)
    → ltb failed 3 ≡ true
    → let missed = count is_missed (before_stop rs) in
      heartbeats rs failed ≡ (beats_from failed missed, any_stopped rs || leb 3 (failed + missed))
unfolding heartbeats
heartbeats_lem [] failed h = ground arith
heartbeats_lem (r ∷ rs) failed h = elim (Bool-cases (ltb (suc failed) 3)) [
  | inl k ↦ ground (arith, heartbeats_lem rs failed h, heartbeats_lem rs (suc failed) k)
  | inr k ↦ ground (arith, heartbeats_lem rs failed h)
]

abbrev pub missed_in : List Round → ℕ
missed_in rs = count is_missed (before_stop rs)

abbrev pub beats_of : ℕ → List Beat
beats_of missed =
    if leb 3 missed
    then sends_ping ∷ sends_ping ∷ enqueues_stop ∷ []
    else (if leb 2 missed
        then sends_ping ∷ sends_ping ∷ []
        else (if leb 1 missed then sends_ping ∷ [] else []))

-- A round is missed in which nothing was received for a ping period. Of the rounds before the first
-- that sees stop_, the first two that are missed send a ping, the third stops the session and ends
-- the loop, and the others do nothing: the missed rounds count whatever was received between them.
pub send_heartbeats_lem :
    (rs : List Round)
    → send_heartbeats rs ≡ (beats_of (missed_in rs), any_stopped rs || leb 3 (missed_in rs))
unfolding send_heartbeats
send_heartbeats_lem rs = ground (arith, heartbeats_lem rs 0 refl)
