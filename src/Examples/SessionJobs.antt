-- ===== src/Examples/SessionJobs.antt =====
-- A session that logs in, talks and logs out.
use rsp.Base.{◌≡◌, ◌++◌, List, [], ◌∷◌, count, arith}
use rsp.RoomJobs.{Session}
use rsp.SessionJobs.{
  SessionJob, job_login, job_logout, job_forward_message, job_ntf_leave_room_message, serve,
}
use rsp.SessionJobs.Serving.{in_turn, is_logout, stop_effects, serve-stops}

abbrev jobs : List SessionJob
jobs =
    job_login (1 ∷ [])
    ∷ job_ntf_leave_room_message 2 1
    ∷ job_logout
    ∷ job_forward_message (5 ∷ [])
    ∷ []

abbrev new_session : Session
new_session = record { uid = []; room_id = 4 }

serve-stops_example : serve 5 jobs new_session ≡ (
  (in_turn jobs new_session).0 ++ stop_effects (count is_logout jobs),
  (in_turn jobs new_session).1,
)
serve-stops_example = serve-stops 5 jobs new_session (omega arith)
