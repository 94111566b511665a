-- ===== src/Room/Manager.antt =====
-- room_manager.hpp: the rooms by id, and the room of each user. A room is shared by pointer, so the
-- rooms stand in a store under their addresses; a room that has left `rooms_` is still there.
use rsp.Base.{
  ℕ, suc, Bool, true, false, Option, none, some, List, [], ◌∷◌, not, ◌||◌, ◌==◌, if◌then◌else◌,
  Bytes, bytes_key, nat_key,
}
use rsp.Base.Map.{Map, find, insert, erase}
use rsp.Room.Instance.{User, Room, new_room}

pub record Manager : Type 0 where
  pub stopping : Bool
  pub rooms : Map ℕ ℕ
  pub user_rooms : Map Bytes ℕ
  pub store : Map ℕ Room
  pub next_address : ℕ

abbrev pub init : Manager
init = record { stopping = false; rooms = []; user_rooms = []; store = []; next_address = 0 }

-- `room_id` is the number that rng drew; `none` is std::logic_error.
unfoldable pub create_room : ℕ → Bytes → Bytes → Manager → Option (ℕ × Manager)
create_room room_id uid route m =
    if m.stopping
    then none
    else (let owner : User = record { uid = uid; route = route } in
        some (
          m.next_address,
          record m {
            rooms = insert room_id m.next_address m.rooms;
            user_rooms = insert uid room_id m.user_rooms;
            store = insert m.next_address (new_room room_id owner) m.store;
            next_address = suc m.next_address;
          },
        ))

unfoldable pub find_room : ℕ → Manager → Option ℕ
find_room room_id m = find room_id m.rooms

unfoldable pub find_user_room : Bytes → Manager → Option ℕ
unfolding find_room
find_user_room uid m = elim (find uid m.user_rooms) [
  | none ↦ none
  | some room_id ↦ find_room room_id m
]

-- rooms_ holds this very room under its id.
unfoldable pub holds : ℕ → ℕ → Manager → Bool
holds room_id address m = elim (find room_id m.rooms) [ none ↦ false | some a ↦ a == address ]

unfoldable pub joined_room : Bytes → ℕ → ℕ → Manager → Bool × Manager
unfolding holds
joined_room uid room_id address m =
    if holds room_id address m
    then (true, record m { user_rooms = insert uid room_id m.user_rooms })
    else (false, m)

unfoldable pub left_room : Bytes → ℕ → ℕ → Manager → Bool × Manager
unfolding holds
left_room uid room_id address m = elim (find uid m.user_rooms) [
  | none ↦ (false, m)
  | some r ↦
      if not (r == room_id) || not (holds room_id address m)
      then (false, m)
      else (true, record m { user_rooms = erase uid m.user_rooms })
]

-- leave_room(uid): the room of the user, who has left it.
unfoldable pub leave_user_room : Bytes → Manager → Option ℕ × Manager
unfolding find_room
leave_user_room uid m = elim (find uid m.user_rooms) [
  | none ↦ (none, m)
  | some room_id ↦
      let m' : Manager = record m { user_rooms = erase uid m.user_rooms } in
      (find_room room_id m', m')
]

-- The loop of `close_room`.
unfoldable pub forget_room : ℕ → Map Bytes ℕ → Map Bytes ℕ
forget_room room_id [] = []
forget_room room_id ((uid, r) ∷ users) =
    let rest = forget_room room_id users in if r == room_id then rest else (uid, r) ∷ rest

-- Whether `instance->close()` is called, and the manager before it.
unfoldable pub close_room : ℕ → ℕ → Manager → Bool × Manager
unfolding holds forget_room
close_room room_id address m =
    if holds room_id address m
    then (
      true,
      record m { rooms = erase room_id m.rooms; user_rooms = forget_room room_id m.user_rooms },
    )
    else (false, m)

-- The rooms that `shutdown` closes, in the order of their ids, and the manager before that.
unfoldable pub addresses : Map ℕ ℕ → List ℕ
addresses [] = []
addresses ((room_id, a) ∷ rooms) = a ∷ addresses rooms

unfoldable pub stop_admission : Manager → List ℕ × Manager
unfolding addresses
stop_admission m = (addresses m.rooms, record m { stopping = true; rooms = []; user_rooms = [] })
