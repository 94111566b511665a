-- ===== src/Examples/Room.antt =====
-- A room with its owner and a guest.
use rsp.Base.{◌+◌, ◌≡◌, refl, true, some, List, [], ◌∷◌, bytes_key, nat_key, is_some, count}
use rsp.Base.Keys.{bytes_beq, bytes_lt}
use rsp.Base.Map.{find, insert, erase, contains}
use rsp.Room.Instance.{is_open, User, KickoutReason, make_contents, new_room, join_room, leave_room}
use rsp.Room.Handler.{run_leave, run_join, handle_create}
use rsp.Room.Manager.{find_room, find_user_room, init, create_room, joined_room, left_room}
use rsp.Room.Serving.{serves}
use rsp.Room.Found.{run-serves}
use rsp.Room.Run as Requests
use rsp.Room.Balance.{
  Task, joins, leaves, kicks, closes, run, enters, exits, undefined, present, run-new_room,
}

abbrev host : User
host = record { uid = 1 ∷ []; route = 11 ∷ [] }

abbrev requests : List Requests.Event
requests =
    Requests.creates true 4 (1 ∷ []) (11 ∷ [])
    ∷ Requests.joins true (2 ∷ []) (12 ∷ []) 0
    ∷ Requests.leaves true (1 ∷ []) 0
    ∷ Requests.leaves true (2 ∷ []) 0
    ∷ []

find_user_room-run_example :
    is_some (find_user_room (1 ∷ []) (Requests.run requests init))
    ≡ contains (1 ∷ []) (Requests.run requests init).user_rooms
find_user_room-run_example = Requests.find_user_room-run requests (1 ∷ [])

-- The room, while its guest is still in it.
abbrev going_on : List Requests.Event
going_on =
    Requests.creates true 4 (1 ∷ []) (11 ∷ [])
    ∷ Requests.joins true (2 ∷ []) (12 ∷ []) 0
    ∷ Requests.leaves true (1 ∷ []) 0
    ∷ []

found : find_room 4 (Requests.run going_on init) ≡ some 0
unfolding Requests.run find_room find run_leave run_join handle_create create_room insert join_room
    make_contents new_room joined_room leave_room bytes_beq bytes_lt erase left_room
found = refl

run-serves_example : serves 4 (find 0 (Requests.run going_on init).store) ≡ true
run-serves_example = run-serves going_on 4 0 found

abbrev tasks : List Task
tasks =
    joins true (2 ∷ []) (12 ∷ [])
    ∷ kicks (2 ∷ []) KickoutReason.room_owner
    ∷ leaves true (1 ∷ [])
    ∷ closes
    ∷ []

run-new_room_example :
    let (effects, r) = run tasks (make_contents (new_room 4 host)) in
    (count (enters (2 ∷ [])) effects + present (2 ∷ []) (new_room 4 host)
      ≡ count (exits (2 ∷ [])) effects + present (2 ∷ []) r)
    × (count undefined effects ≡ 0)
run-new_room_example = run-new_room 4 host (2 ∷ []) tasks refl

member : find (1 ∷ []) (new_room 4 host).users ≡ some host
unfolding new_room find insert bytes_beq
member = refl

opened : is_open (new_room 4 host).lifecycle ≡ true
unfolding new_room
opened = refl
