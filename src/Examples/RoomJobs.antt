-- ===== src/Examples/RoomJobs.antt =====
-- A join that is answered, and then times out.
use rsp.Base.{◌≡◌, true, [], ◌∷◌, count}
use rsp.RoomJobs.{Kind, Session, CancelReason, init, run}
use rsp.RoomJobs.Settling.{
  Event, responded, cancelled, play, is_completion, is_response, is_cancellation, cancellations,
  step, responses, room_after, play-run,
}

abbrev guest : Session
guest = record { uid = 1 ∷ []; room_id = 0 }

abbrev answer : Event
answer = responded (record { success = true; room_id = 6 })

play-run_example :
    let ran = (run 9 guest (init Kind.join_room 2 6)).1 in
    let (effects, s, j) = play (answer ∷ cancelled CancelReason.timeout ∷ []) guest ran in
    (count is_completion effects ≡ 1)
    × (count is_response effects ≡ responses answer)
    × (count (is_cancellation 9) effects ≡ cancellations answer)
    × (s.room_id ≡ room_after Kind.join_room answer guest)
    × (s.uid ≡ guest.uid)
    × (play (answer ∷ cancelled CancelReason.timeout ∷ []) guest ran ≡ step answer guest ran)
play-run_example = play-run Kind.join_room 2 6 9 guest answer (cancelled CancelReason.timeout ∷ [])
