-- ===== src/Room/Run.antt =====
-- The requests and the rooms' tasks in any order.
use rsp.Base.{
  ℕ, ◌≡◌, refl, Bool, true, List, [], ◌∷◌, Bytes, nat_key, bytes_key, arith, is_some, Option-cases,
  inl, inr,
}
use rsp.Base.Map.{find, contains}
use rsp.Room.Instance.{Room, KickoutReason, join_room, leave_room, close_impl}
use rsp.Room.Manager.{Manager, init, find_user_room, left_room, stop_admission}
use rsp.Room.Handler.{
  update_room, handle_create, run_join, run_close, run_leave, run_kick, close_all, shutdown,
}
use rsp.Room.Links.{
  is_linked, create_room-linked, joined_room-linked, left_room-linked, close_room-linked,
  find_user_room-linked,
}

-- `begun` is what `begin()` says, `address` is the room whose strand runs the task.
pub data Event : Type 0 where
  creates : (begun : Bool) (room_id : ℕ) (uid route : Bytes) → Event
  joins : (begun : Bool) (uid route : Bytes) (address : ℕ) → Event
  leaves : (begun : Bool) (uid : Bytes) (address : ℕ) → Event
  kicks : (uid : Bytes) (reason : KickoutReason) (address : ℕ) → Event
  closes : (room_id address : ℕ) → Event
  shuts_down : Event

unfoldable pub step : Event → Manager → Manager
step (creates begun room_id uid route) m = (handle_create begun room_id uid route m).1
step (joins begun uid route address) m = (run_join begun uid route address m).2
step (leaves begun uid address) m = (run_leave begun uid address m).2
step (kicks uid reason address) m = (run_kick uid reason address m).1
step (closes room_id address) m = (run_close room_id address m).1
step shuts_down m = (shutdown m).1

unfoldable pub run : List Event → Manager → Manager
unfolding step
run [] m = m
run (e ∷ es) m = run es (step e m)

handle_create-linked :
    (begun : Bool) (room_id : ℕ) (uid route : Bytes) (m : Manager)
    → is_linked m ≡ true
    → is_linked (handle_create begun room_id uid route m).1 ≡ true
unfolding handle_create update_room
handle_create-linked begun room_id uid route m l =
    ground (arith, create_room-linked room_id uid route m l)

update_room-linked :
    (address : ℕ) (r : Room) (m : Manager)
    → is_linked m ≡ true
    → is_linked (update_room address r m) ≡ true
unfolding update_room
update_room-linked address r m l = l

run_join-linked :
    (begun : Bool) (uid route : Bytes) (address : ℕ) (m : Manager)
    → is_linked m ≡ true
    → is_linked (run_join begun uid route address m).2 ≡ true
unfolding run_join
run_join-linked begun uid route address m l = elim (Option-cases (find address m.store)) [
  | inl e ↦ ground arith
  | inr (r, e) ↦
      let updated = update_room address (join_room begun uid route r).2 m in
      let kept = update_room-linked address (join_room begun uid route r).2 m l in
      ground (arith, kept, joined_room-linked uid r.room_id address updated kept)
]

run_close-linked :
    (room_id address : ℕ) (m : Manager)
    → is_linked m ≡ true
    → is_linked (run_close room_id address m).1 ≡ true
unfolding run_close update_room
run_close-linked room_id address m l = ground (arith, close_room-linked room_id address m l)

run_leave-linked :
    (begun : Bool) (uid : Bytes) (address : ℕ) (m : Manager)
    → is_linked m ≡ true
    → is_linked (run_leave begun uid address m).2 ≡ true
unfolding run_leave
run_leave-linked begun uid address m l = elim (Option-cases (find address m.store)) [
  | inl e ↦ ground arith
  | inr (r, e) ↦
      let updated = update_room address (leave_room begun uid r).3 m in
      let kept = update_room-linked address (leave_room begun uid r).3 m l in
      let left = left_room-linked uid r.room_id address updated kept in
      ground (
        arith,
        kept,
        left,
        run_close-linked r.room_id address (left_room uid r.room_id address updated).1 left,
      )
]

run_kick-linked :
    (uid : Bytes) (reason : KickoutReason) (address : ℕ) (m : Manager)
    → is_linked m ≡ true
    → is_linked (run_kick uid reason address m).1 ≡ true
unfolding run_kick update_room
run_kick-linked uid reason address m l = ground arith

close_all-linked :
    (as' : List ℕ) (m : Manager) → is_linked m ≡ true → is_linked (close_all as' m).1 ≡ true
unfolding close_all
close_all-linked [] m l = l
close_all-linked (a ∷ as') m l = elim (Option-cases (find a m.store)) [
  | inl e ↦ ground (arith, close_all-linked as' m l)
  | inr (r, e) ↦
      let kept = update_room-linked a (close_impl r).1 m l in
      ground (arith, close_all-linked as' (update_room a (close_impl r).1 m) kept)
]

shutdown-linked : (m : Manager) → is_linked (shutdown m).1 ≡ true
unfolding shutdown stop_admission
shutdown-linked m = close_all-linked (stop_admission m).0 (stop_admission m).1 refl

step-linked : (e : Event) (m : Manager) → is_linked m ≡ true → is_linked (step e m) ≡ true
unfolding step
step-linked (creates begun room_id uid route) m l = handle_create-linked begun room_id uid route m l
step-linked (joins begun uid route address) m l = run_join-linked begun uid route address m l
step-linked (leaves begun uid address) m l = run_leave-linked begun uid address m l
step-linked (kicks uid reason address) m l = run_kick-linked uid reason address m l
step-linked (closes room_id address) m l = run_close-linked room_id address m l
step-linked shuts_down m l = shutdown-linked m

run-linked : (es : List Event) (m : Manager) → is_linked m ≡ true → is_linked (run es m) ≡ true
unfolding run
run-linked [] m l = l
run-linked (e ∷ es) m l = run-linked es (step e m) (step-linked e m l)

-- After any requests, tasks of rooms and shutdowns of a new manager, whatever rooms the tasks run
-- on, a user has a room exactly when `user_rooms_` records one: no record outlives its room.
pub find_user_room-run :
    (es : List Event) (uid : Bytes)
    → let m = run es init in is_some (find_user_room uid m) ≡ contains uid m.user_rooms
find_user_room-run es uid = find_user_room-linked uid (run es init) (run-linked es init refl)
