-- ===== src/SessionJobs.antt =====
-- The jobs of a session that are done when `run` returns (job_login, job_logout, job_stop,
-- job_forward_message, job_cli_forward_message and job_ntf_leave_room_message of rsp-svr/user), and
-- the messages that the session makes them of. What a login does to the session manager is in
-- SessionManager; here it is an effect.
pub mod Serving
use rsp.Base.{ℕ, zero, suc, Bool, true, false, List, [], ◌∷◌, ◌++◌, ◌==◌, not, Bytes}
use rsp.RoomJobs.{Session}

pub data SessionJob : Type 0 where
  job_login : (uid : Bytes) → SessionJob
  job_logout : SessionJob
  job_stop : (force_close : Bool) → SessionJob
  job_forward_message : (message : Bytes) → SessionJob
  job_cli_forward_message :
      (uid : Bytes) (sender_type : ℕ) (sender_uid message : Bytes) → SessionJob
  job_ntf_leave_room_message : (reason kickout_reason : ℕ) → SessionJob

-- A message to the client with the fields that are set; a notification to the room server; the entry
-- in the session manager; the stop of the connection; and `done()`.
pub data Effect : Type 0 where
  pong : Effect
  res_login : (uid : Bytes) (is_attached : Bool) (room_id : ℕ) → Effect
  res_logout : (uid : Bytes) → Effect
  fwd_client : (uid : Bytes) (sender_type : ℕ) (sender_uid message : Bytes) → Effect
  ntf_leave_room : (reason : ℕ) → Effect
  fwd_room : (uid message : Bytes) → Effect
  adds_session : (uid : Bytes) → Effect
  stops : (force_close : Bool) → Effect
  completes : Effect

-- What the dispatcher and the room channel call of a session, but for the requests of room jobs.
pub data Received : Type 0 where
  ping : Received
  unknown : Received
  job_for : SessionJob → Received

-- on_recv and on_recv_unknown: a ping is answered at once, and a job is posted for the rest.
unfoldable pub on_recv : Received → List Effect × List SessionJob
on_recv ping = (pong ∷ [], [])
on_recv unknown = ([], job_stop false ∷ [])
on_recv (job_for j) = ([], j ∷ [])

-- What a job makes happen, the jobs that it posts to the strand, and the session after it.
abbrev pub Outcome : Type 0
Outcome = List Effect × List SessionJob × Session

abbrev pub run_login : Bytes → Session → Outcome
run_login uid s = (
  res_login uid (not (s.room_id == 0)) s.room_id ∷ adds_session uid ∷ completes ∷ [],
  [],
  record s { uid = uid },
)

abbrev pub run_logout : Session → Outcome
run_logout s = (res_logout s.uid ∷ completes ∷ [], job_stop false ∷ [], s)

abbrev pub run_stop : Bool → Session → Outcome
run_stop force_close s = (stops force_close ∷ completes ∷ [], [], s)

abbrev pub run_forward_message : Bytes → Session → Outcome
run_forward_message message s = (fwd_room s.uid message ∷ completes ∷ [], [], s)

abbrev pub run_cli_forward_message : Bytes → ℕ → Bytes → Bytes → Session → Outcome
run_cli_forward_message uid sender_type sender_uid message s =
    (fwd_client uid sender_type sender_uid message ∷ completes ∷ [], [], s)

-- The kickout reason is not passed on.
abbrev pub run_ntf_leave_room_message : ℕ → ℕ → Session → Outcome
run_ntf_leave_room_message reason kickout_reason s =
    (ntf_leave_room reason ∷ completes ∷ [], [], record s { room_id = 0 })

unfoldable pub run : SessionJob → Session → Outcome
run (job_login uid) s = run_login uid s
run job_logout s = run_logout s
run (job_stop force_close) s = run_stop force_close s
run (job_forward_message message) s = run_forward_message message s
run (job_cli_forward_message uid sender_type sender_uid message) s =
    run_cli_forward_message uid sender_type sender_uid message s
run (job_ntf_leave_room_message reason kickout_reason) s =
    run_ntf_leave_room_message reason kickout_reason s

-- The strand: the jobs in the order in which they are posted, for a number of rounds.
unfoldable pub serve : ℕ → List SessionJob → Session → List Effect × Session
unfolding run
serve zero q s = ([], s)
serve (suc n) [] s = ([], s)
serve (suc n) (j ∷ q) s =
    let (es, posted, s') = run j s in
    let (later, s'') = serve n (q ++ posted) s' in (es ++ later, s'')
