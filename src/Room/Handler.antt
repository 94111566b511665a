-- ===== src/Room/Handler.antt =====
-- room_message_handler.hpp: the requests of the User server, and the tasks of a room's strand with
-- the manager that their callbacks update. A task holds the address of its room. A task's effects
-- come in the order of the code; the response's success flag is returned beside them.
use rsp.Base.{
  ℕ, Bool, false, Option, none, some, List, [], ◌∷◌, ◌++◌, not, if◌then◌else◌, Bytes, nat_key,
  bytes_key,
}
use rsp.Base.Map.{find, insert}
use rsp.Room.Instance.{
  Room, Effect, KickoutReason, join_room, leave_room, close_impl, kick_out_user_impl, recv_message,
  make_contents, run_on_create_room,
}
use rsp.Room.Manager.{
  Manager, create_room, find_room, find_user_room, joined_room, left_room, close_room,
  stop_admission,
}

-- A write through the pointer to a room.
unfoldable pub update_room : ℕ → Room → Manager → Manager
update_room address r m = record m { store = insert address r m.store }

-- handle(User2RoomReqCreateRoom): the id of the new room; `none` if `begin()` says no.
unfoldable pub handle_create : Bool → ℕ → Bytes → Bytes → Manager → Option ℕ × Manager
handle_create begun room_id uid route m =
    if not begun then (none, m) else elim (create_room room_id uid route m) [
      | none ↦ (none, m)
      | some (address, m') ↦ elim (find address m'.store) [
        | none ↦ (none, m')
        | some r ↦ (some r.room_id, update_room address (make_contents r) m')
      ]
    ]

-- The task of a join, on the room at an address.
unfoldable pub run_join : Bool → Bytes → Bytes → ℕ → Manager → Bool × List Effect × Manager
unfolding update_room
run_join begun uid route address m = elim (find address m.store) [
  | none ↦ (false, [], m)
  | some r ↦
      let (joined, effects, r') = join_room begun uid route r in
      let m' = update_room address r' m in
      if joined
      then (let (kept, m'') = joined_room uid r.room_id address m' in (kept, effects, m''))
      else (false, effects, m')
]

-- handle(User2RoomReqJoinRoom): the address whose strand gets the task; without a room the answer
-- is no.
unfoldable pub handle_join : ℕ → Manager → Option ℕ
unfolding find_room
handle_join room_id m = find_room room_id m

-- `room_manager_.close_room(room)` from the room's own strand: the close runs at once.
unfoldable pub run_close : ℕ → ℕ → Manager → List Effect × Manager
unfolding update_room
run_close room_id address m =
    let (closes, m') = close_room room_id address m in
    if closes
    then elim (find address m'.store) [
      | none ↦ ([], m')
      | some r ↦ let (effects, r') = close_impl r in (effects, update_room address r' m')
    ]
    else ([], m')

-- The task of a leave.
unfoldable pub run_leave : Bool → Bytes → ℕ → Manager → Bool × List Effect × Manager
unfolding update_room
run_leave begun uid address m = elim (find address m.store) [
  | none ↦ (false, [], m)
  | some r ↦
      let (left, effects, empty, r') = leave_room begun uid r in
      let m' = update_room address r' m in
      if left
      then (let (success, m'') = left_room uid r.room_id address m' in
          if empty
          then (let (more, m₃) = run_close r.room_id address m'' in (success, effects ++ more, m₃))
          else (success, effects, m''))
      else (false, effects, m')
]

-- handle(User2RoomReqLeaveRoom): the address whose strand gets the task.
unfoldable pub handle_leave : Bytes → Manager → Option ℕ
unfolding find_user_room
handle_leave uid m = find_user_room uid m

-- handle(User2RoomFwdRoom)
unfoldable pub handle_fwd : Bytes → Bytes → Manager → List Effect
handle_fwd uid msg m = elim (find_user_room uid m) [
  | none ↦ []
  | some address ↦ elim (find address m.store) [ none ↦ [] | some r ↦ recv_message uid msg r ]
]

-- The task `on_create_room` of a room, and the task of a kick.
unfoldable pub run_created : ℕ → Manager → List Effect
run_created address m = elim (find address m.store) [ none ↦ [] | some r ↦ run_on_create_room r ]

unfoldable pub run_kick : Bytes → KickoutReason → ℕ → Manager → List Effect × Manager
unfolding update_room
run_kick uid reason address m = elim (find address m.store) [
  | none ↦ ([], m)
  | some r ↦
      let (effects, r') = kick_out_user_impl uid reason r in (effects, update_room address r' m)
]

-- shutdown: every room is closed, in the order of the ids.
unfoldable pub close_all : List ℕ → Manager → List Effect × Manager
unfolding update_room
close_all [] m = ([], m)
close_all (a ∷ as') m = elim (find a m.store) [
  | none ↦ close_all as' m
  | some r ↦
      let (effects, r') = close_impl r in
      let (more, m') = close_all as' (update_room a r' m) in (effects ++ more, m')
]

unfoldable pub shutdown : Manager → List Effect × Manager
unfolding close_all
shutdown m = let (closing, m') = stop_admission m in close_all closing m'
