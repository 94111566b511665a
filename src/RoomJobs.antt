-- ===== src/RoomJobs.antt =====
-- job_create_room.hpp, job_join_room.hpp and job_leave_room.hpp (rsp-svr/user): a job sends one
-- request to the room server and settles by the first of its response, its timeout and the shutdown
-- of the session. The callbacks run on the session's strand, one after the other; a job is also
-- told of what comes after it has settled.
pub mod Settling
use rsp.Base.{ℕ, Bool, true, false, List, [], ◌∷◌, ◌++◌, if◌then◌else◌, Bytes}

pub data Kind : Type 0 where
  create_room join_room leave_room : Kind

pub record Session : Type 0 where
  pub uid : Bytes
  pub room_id : ℕ

-- `asked_room` is the room of a ReqJoinRoom; `has_done` is whether `done_` holds a callback.
pub record Job : Type 0 where
  pub kind : Kind
  pub request_id : ℕ
  pub asked_room : ℕ
  pub room_request_id : ℕ
  pub has_done : Bool
  pub finished : Bool

-- The response of the room server.
pub record RoomResponse : Type 0 where
  pub success : Bool
  pub room_id : ℕ

pub data CancelReason : Type 0 where
  timeout shut : CancelReason

-- What a job makes happen: the request to the room server, its cancellation, the response to the
-- client (with the fields that the job sets; a field that it does not set is 0) and `done()`.
pub data Effect : Type 0 where
  send_request : Kind → Bytes → ℕ → Effect
  cancel_request : ℕ → Effect
  respond : Kind → (request_id room_id : ℕ) → (success : Bool) → Effect
  completes : Effect

abbrev pub init : Kind → ℕ → ℕ → Job
init kind request_id asked_room = record {
  kind = kind;
  request_id = request_id;
  asked_room = asked_room;
  room_request_id = 0;
  has_done = false;
  finished = false;
}

-- The room that the request names: a join's only.
abbrev pub named_room : Kind → ℕ → ℕ
named_room join_room id = id
named_room kind id = 0

-- `sent_id` is the id that `send_request` gave.
unfoldable pub run : ℕ → Session → Job → List Effect × Job
run sent_id s j = (
  send_request j.kind s.uid (named_room j.kind j.asked_room) ∷ [],
  record j { room_request_id = sent_id; has_done = true },
)

unfoldable pub finish : Job → List Effect × Job
finish j = if j.finished then ([], j) else (
  (if j.has_done then completes ∷ [] else []),
  record j { finished = true; has_done = false },
)

unfoldable pub send_timeout_response : Job → List Effect
send_timeout_response j = respond j.kind j.request_id (named_room j.kind j.asked_room) false ∷ []

abbrev pub timeout_response : CancelReason → Job → List Effect
timeout_response timeout j = send_timeout_response j
timeout_response shut j = []

unfoldable pub cancel : CancelReason → Job → List Effect × Job
unfolding finish
cancel reason j =
    if j.finished
    then ([], j)
    else (let (last, j') = finish j in
        (cancel_request j.room_request_id ∷ timeout_response reason j ++ last, j'))

-- set_enter_room and set_leave_room, as the handler of each kind calls them.
unfoldable pub enter_or_leave : Kind → RoomResponse → Session → Session
enter_or_leave create_room r s = record s { room_id = r.room_id }
enter_or_leave join_room r s = if r.success then record s { room_id = r.room_id } else s
enter_or_leave leave_room r s = record s { room_id = 0 }

-- The room id of the response to the client: a leave has none.
abbrev pub answered_room : Kind → ℕ → ℕ
answered_room leave_room id = 0
answered_room kind id = id

-- handle_res_create_room, handle_res_join_room and handle_res_leave_room.
unfoldable pub handle_res : RoomResponse → Session → Job → List Effect × Session × Job
unfolding finish enter_or_leave
handle_res r s j =
    if j.finished
    then ([], s, j)
    else (let (last, j') = finish j in
        (
          respond j.kind j.request_id (answered_room j.kind r.room_id) r.success ∷ last,
          enter_or_leave j.kind r s,
          j',
        ))
