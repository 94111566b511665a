-- ===== src/Room/Links.antt =====
-- room_manager.hpp: the rooms that `user_rooms_` names are rooms of `rooms_`, after each operation.
use rsp.Base.{
  ℕ, ◌≡◌, refl, Bool, true, Option, none, some, [], ◌∷◌, ◌&&◌, Bytes, nat_key, bytes_key, Key,
  arith, ==_iff, is_some, Option-cases, inl, inr,
}
use rsp.Base.Map.{Map, find, insert, erase, contains, find-insert, find-erase}
use rsp.Room.Manager.{
  Manager, create_room, find_room, find_user_room, holds, joined_room, left_room, forget_room,
  close_room,
}

-- Every value of the second map is a key of the first.
abbrev pub linked : {K : Type 0} → Map ℕ ℕ → Map K ℕ → Bool
linked rooms [] = true
linked rooms ((k, id) ∷ users) = contains id rooms && linked rooms users

module _ {K : Type 0} ⦃o : Key K⦄ where
  pub linked-find :
      (rooms : Map ℕ ℕ) (k : K) (id : ℕ) (users : Map K ℕ)
      → linked rooms users ≡ true
      → find k users ≡ some id
      → contains id rooms ≡ true
  unfolding find
  linked-find rooms k id [] l h = cc
  linked-find rooms k id ((j, i) ∷ users) l h = ground (arith, linked-find rooms k id users)

  pub linked-insert :
      (rooms : Map ℕ ℕ) (k : K) (id : ℕ) (users : Map K ℕ)
      → contains id rooms ≡ true
      → linked rooms users ≡ true
      → linked rooms (insert k id users) ≡ true
  unfolding insert
  linked-insert rooms k id [] c l = ground arith
  linked-insert rooms k id ((j, i) ∷ users) c l = ground (arith, linked-insert rooms k id users)

  pub linked-erase :
      (rooms : Map ℕ ℕ) (k : K) (users : Map K ℕ)
      → linked rooms users ≡ true
      → linked rooms (erase k users) ≡ true
  unfolding erase
  linked-erase rooms k [] l = refl
  linked-erase rooms k ((j, i) ∷ users) l = ground (arith, linked-erase rooms k users)

  pub linked-new_room :
      (id a : ℕ) (rooms : Map ℕ ℕ) (users : Map K ℕ)
      → linked rooms users ≡ true
      → linked (insert id a rooms) users ≡ true
  linked-new_room id a rooms [] l = refl
  linked-new_room id a rooms ((j, i) ∷ users) l =
      ground (arith, ==_iff i id, find-insert i id a rooms, linked-new_room id a rooms users)

pub linked-forget_room :
    (id : ℕ) (rooms : Map ℕ ℕ) (users : Map Bytes ℕ)
    → linked rooms users ≡ true
    → linked (erase id rooms) (forget_room id users) ≡ true
unfolding forget_room
linked-forget_room id rooms [] l = refl
linked-forget_room id rooms ((j, i) ∷ users) l =
    ground (arith, ==_iff i id, find-erase i id rooms, linked-forget_room id rooms users)

abbrev pub is_linked : Manager → Bool
is_linked m = linked m.rooms m.user_rooms

-- What `create_room` gives, if anything, is linked.
abbrev pub created : Option (ℕ × Manager) → Bool
created none = true
created (some (a, m)) = is_linked m

pub create_room-linked :
    (id : ℕ) (uid route : Bytes) (m : Manager)
    → is_linked m ≡ true
    → created (create_room id uid route m) ≡ true
unfolding create_room
create_room-linked id uid route m l = ground (
  arith,
  find-insert id id m.next_address m.rooms,
  ==_iff id id,
  linked-new_room id m.next_address m.rooms m.user_rooms,
  linked-insert (insert id m.next_address m.rooms) uid id m.user_rooms,
)

pub joined_room-linked :
    (uid : Bytes) (id a : ℕ) (m : Manager)
    → is_linked m ≡ true
    → is_linked (joined_room uid id a m).1 ≡ true
unfolding joined_room holds
joined_room-linked uid id a m l = ground (arith, linked-insert m.rooms uid id m.user_rooms)

pub left_room-linked :
    (uid : Bytes) (id a : ℕ) (m : Manager)
    → is_linked m ≡ true
    → is_linked (left_room uid id a m).1 ≡ true
unfolding left_room
left_room-linked uid id a m l = ground (arith, linked-erase m.rooms uid m.user_rooms)

pub close_room-linked :
    (id a : ℕ) (m : Manager) → is_linked m ≡ true → is_linked (close_room id a m).1 ≡ true
unfolding close_room
close_room-linked id a m l = ground (arith, linked-forget_room id m.rooms m.user_rooms)

-- A user of a linked manager has a room exactly when the user is recorded.
pub find_user_room-linked :
    (uid : Bytes) (m : Manager)
    → is_linked m ≡ true
    → is_some (find_user_room uid m) ≡ contains uid m.user_rooms
unfolding find_user_room find_room
find_user_room-linked uid m l = elim (Option-cases (find uid m.user_rooms)) [
  | inl e ↦ ground arith
  | inr (id, e) ↦ ground (arith, linked-find m.rooms uid id m.user_rooms l e)
]
