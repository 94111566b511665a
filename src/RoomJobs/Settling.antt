-- ===== src/RoomJobs/Settling.antt =====
-- A job settles once, whatever comes and in whatever order.
use rsp.Base.{
  ℕ, ◌≡◌, refl, ap, ◌∙◌, ◌==◌, ==_iff, append-nil, Bool, true, false, List, [], ◌∷◌, ◌++◌,
  if◌then◌else◌, arith, count,
}
use rsp.RoomJobs.{
  Kind, create_room, join_room, leave_room, Session, Job, RoomResponse, CancelReason, timeout, shut,
  Effect, init, run, finish, send_timeout_response, cancel, enter_or_leave, handle_res,
}

pub data Event : Type 0 where
  responded : RoomResponse → Event
  cancelled : CancelReason → Event

unfoldable pub step : Event → Session → Job → List Effect × Session × Job
unfolding handle_res cancel
step (responded r) s j = handle_res r s j
step (cancelled reason) s j = let (effects, j') = cancel reason j in (effects, s, j')

unfoldable pub play : List Event → Session → Job → List Effect × Session × Job
unfolding step
play [] s j = ([], s, j)
play (e ∷ es) s j =
    let (now, s', j') = step e s j in
    let (later, s'', j'') = play es s' j' in (now ++ later, s'', j'')

abbrev pub is_completion : Effect → Bool
is_completion Effect.completes = true
is_completion e = false

abbrev pub is_response : Effect → Bool
is_response (Effect.respond kind request_id room_id success) = true
is_response e = false

-- The responses to the client that an event calls for: none on a shutdown.
abbrev pub responses : Event → ℕ
responses (responded r) = 1
responses (cancelled timeout) = 1
responses (cancelled shut) = 0

-- The session's room once an event has settled the job.
abbrev pub room_after : Kind → Event → Session → ℕ
room_after create_room (responded r) s = r.room_id
room_after join_room (responded r) s = if r.success then r.room_id else s.room_id
room_after leave_room (responded r) s = 0
room_after kind (cancelled reason) s = s.room_id

play-finished :
    (es : List Event) (s : Session) (j : Job) → j.finished ≡ true → play es s j ≡ ([], s, j)
unfolding play step
play-finished [] s j h = refl
play-finished (responded r ∷ es) s j h = ground (arith, play-finished es s j h)
play-finished (cancelled reason ∷ es) s j h = ground (arith, play-finished es s j h)

-- The request to the room server under this id is cancelled.
abbrev pub is_cancellation : ℕ → Effect → Bool
is_cancellation id (Effect.cancel_request sent_id) = sent_id == id
is_cancellation id e = false

abbrev pub cancellations : Event → ℕ
cancellations (responded r) = 0
cancellations (cancelled reason) = 1

settles :
    (kind : Kind) (request_id asked_room sent_id : ℕ) (s : Session) (e : Event)
    → (step e s (run sent_id s (init kind request_id asked_room)).1).2.finished ≡ true
unfolding step run handle_res cancel finish
settles kind i a n s (responded r) = refl
settles kind i a n s (cancelled reason) = refl

first_only :
    (e : Event) (es : List Event) (s : Session) (j : Job)
    → (step e s j).2.finished ≡ true
    → play (e ∷ es) s j ≡ step e s j
unfolding play
first_only e es s j h =
    let (now, s', j') = step e s j in
    ap (λ r. (now ++ r.0, r.1, r.2)) (play-finished es s' j' h)
    ∙ ap (λ l. (l, s', j')) (append-nil now)

step-run :
    (kind : Kind) (request_id asked_room sent_id : ℕ) (s : Session) (e : Event)
    → let (effects, s', j) = step e s (run sent_id s (init kind request_id asked_room)).1 in
      (count is_completion effects ≡ 1)
      × (count is_response effects ≡ responses e)
      × (count (is_cancellation sent_id) effects ≡ cancellations e)
      × (s'.room_id ≡ room_after kind e s)
      × (s'.uid ≡ s.uid)
unfolding step run handle_res cancel finish enter_or_leave send_timeout_response
step-run create_room i a n s (responded r) = (refl, refl, refl, refl, refl)
step-run join_room i a n s (responded r) =
    (ground arith, ground arith, ground arith, ground arith, ground arith)
step-run leave_room i a n s (responded r) = (refl, refl, refl, refl, refl)
step-run kind i a n s (cancelled timeout) = (refl, refl, ground (arith, ==_iff n n), refl, refl)
step-run kind i a n s (cancelled shut) = (refl, refl, ground (arith, ==_iff n n), refl, refl)

-- The first event after the job has run settles it: `done` is called once, the client gets one
-- response, or none on a shutdown, the request to the room server is cancelled once, or not at all
-- if it was answered, and the session's room is set by that event alone. Whatever comes later has no
-- effect: the effects, the session and the job are those of the first event.
pub play-run :
    (kind : Kind) (request_id asked_room sent_id : ℕ) (s : Session) (e : Event) (es : List Event)
    → let ran = (run sent_id s (init kind request_id asked_room)).1 in
      let (effects, s', j) = play (e ∷ es) s ran in
      (count is_completion effects ≡ 1)
      × (count is_response effects ≡ responses e)
      × (count (is_cancellation sent_id) effects ≡ cancellations e)
      × (s'.room_id ≡ room_after kind e s)
      × (s'.uid ≡ s.uid)
      × (play (e ∷ es) s ran ≡ step e s ran)
play-run kind i a n s e es =
    let ran = (run n s (init kind i a)).1 in
    let same = first_only e es s ran (settles kind i a n s e) in
    let k = step-run kind i a n s e in
    (
      ap (λ r. count is_completion r.0) same ∙ k.0,
      ap (λ r. count is_response r.0) same ∙ k.1,
      ap (λ r. count (is_cancellation n) r.0) same ∙ k.2,
      ap (λ r. r.1.room_id) same ∙ k.3,
      ap (λ r. r.1.uid) same ∙ k.4,
      same,
    )
