-- ===== src/Room/Serving.antt =====
-- A room that the manager can find, and what keeps it so.
use rsp.Base.{
  ℕ, suc, ◌<◌, ◌≡◌, sym, ap, ◌∙◌, Bool, true, false, ◌&&◌, ◌==◌, Option, none, some, [], Bytes,
  nat_key, bytes_key, arith, ==_iff, Bool-cases, inl, inr,
}
use rsp.Base.Map.{Map, find, insert, erase, find-insert, find-erase}
use rsp.Room.Instance.{
  Room, User, KickoutReason, is_open, new_room, make_contents, join_room, leave_room,
  kick_out_user_impl,
}
use rsp.Room.Manager.{Manager, joined_room, left_room}
use rsp.Room.Handler.{update_room}

-- An open room with its contents, that has this id.
abbrev pub serves : ℕ → Option Room → Bool
serves id none = false
serves id (some r) = (r.room_id == id) && (is_open r.lifecycle && r.contents)

pub record IsServing (m : Manager) : Type 0 where
  pub known : (id a : ℕ) → find id m.rooms ≡ some a → serves id (find a m.store) ≡ true
  pub below : (id a : ℕ) → find id m.rooms ≡ some a → a < m.next_address

pub update_room-IsServing :
    (a : ℕ) (r r' : Room) (m : Manager)
    → IsServing m
    → find a m.store ≡ some r
    → ((id : ℕ) → serves id (some r) ≡ true → serves id (some r') ≡ true)
    → IsServing (update_room a r' m)
unfolding update_room
update_room-IsServing a r r' m v e keeps = record {
  known = λ id b p. elim (Bool-cases (b == a)) [
    | inl h ↦ ground (arith, find-insert b a r' m.store, h, ==_iff b a, v.known id b p, e, keeps id)
    | inr h ↦ ground (arith, find-insert b a r' m.store, h, v.known id b p)
  ];
  below = v.below;
}

pub same-IsServing :
    (m m' : Manager)
    → IsServing m
    → m'.rooms ≡ m.rooms
    → m'.store ≡ m.store
    → m'.next_address ≡ m.next_address
    → IsServing m'
same-IsServing m m' v p q n = record {
  known = λ id a h. ap (λ s. serves id (find a s)) q ∙ v.known id a (ap (find id) (sym p) ∙ h);
  below = λ id a h. omega (arith, n, v.below id a (ap (find id) (sym p) ∙ h));
}

pub joined_room-IsServing :
    (uid : Bytes) (id a : ℕ) (m : Manager) → IsServing m → IsServing (joined_room uid id a m).1
unfolding joined_room
joined_room-IsServing uid id a m v =
    same-IsServing m (joined_room uid id a m).1 v (ground arith) (ground arith) (ground arith)

pub left_room-IsServing :
    (uid : Bytes) (id a : ℕ) (m : Manager) → IsServing m → IsServing (left_room uid id a m).1
unfolding left_room
left_room-IsServing uid id a m v =
    same-IsServing m (left_room uid id a m).1 v (ground arith) (ground arith) (ground arith)

pub join_room-serves :
    (begun : Bool) (uid route : Bytes) (r : Room) (id : ℕ)
    → serves id (some r) ≡ true
    → serves id (some (join_room begun uid route r).2) ≡ true
unfolding join_room
join_room-serves begun uid route r id h = ground (arith, h)

pub leave_room-serves :
    (begun : Bool) (uid : Bytes) (r : Room) (id : ℕ)
    → serves id (some r) ≡ true
    → serves id (some (leave_room begun uid r).3) ≡ true
unfolding leave_room
leave_room-serves begun uid r id h = ground (arith, h)

pub kick_out_user_impl-serves :
    (uid : Bytes) (reason : KickoutReason) (r : Room) (id : ℕ)
    → serves id (some r) ≡ true
    → serves id (some (kick_out_user_impl uid reason r).1) ≡ true
unfolding kick_out_user_impl
kick_out_user_impl-serves uid reason r id h = ground (arith, h)

-- The room at this address is the one under this id, which is erased: what is found still is another.
pub closed-IsServing :
    (id a : ℕ) (r r' : Room) (users : Map Bytes ℕ) (m : Manager)
    → IsServing m
    → find id m.rooms ≡ some a
    → find a m.store ≡ some r
    → IsServing
        (record m { rooms = erase id m.rooms; user_rooms = users; store = insert a r' m.store })
closed-IsServing id a r r' users m v p e = record {
  known = λ j b q. elim (Bool-cases (b == a)) [
    | inl h ↦ ground (
      arith,
      h,
      ==_iff b a,
      v.known id a p,
      v.known j b,
      e,
      find-erase j id m.rooms,
      ==_iff j id,
      ==_iff r.room_id id,
      ==_iff r.room_id j,
      q,
    )
    | inr h ↦ ground (arith, h, v.known j b, find-erase j id m.rooms, find-insert b a r' m.store, q)
  ];
  below = λ j b q. ground (arith, q, v.below j b, find-erase j id m.rooms);
}

-- A room that is made, with its contents, at a new address.
abbrev pub made : ℕ → User → Bytes → Manager → Manager
made id owner uid m = record m {
  rooms = insert id m.next_address m.rooms;
  user_rooms = insert uid id m.user_rooms;
  store =
      insert m.next_address (make_contents (new_room id owner))
        (insert m.next_address (new_room id owner) m.store);
  next_address = suc m.next_address;
}

pub made-IsServing :
    (id : ℕ) (owner : User) (uid : Bytes) (m : Manager)
    → IsServing m
    → IsServing (made id owner uid m)
unfolding make_contents new_room
made-IsServing id owner uid m v =
    let first = new_room id owner in
    record {
      known = λ j b q. elim (Bool-cases (b == m.next_address)) [
        | inl h ↦ ground (
          arith,
          q,
          h,
          v.below j b,
          ==_iff b m.next_address,
          ==_iff id j,
          ==_iff j id,
          find-insert j id m.next_address m.rooms,
          find-insert b m.next_address (make_contents first) (insert m.next_address first m.store),
        )
        | inr h ↦ ground (
          arith,
          q,
          h,
          v.known j b,
          ==_iff m.next_address m.next_address,
          find-insert j id m.next_address m.rooms,
          find-insert b m.next_address (make_contents first) (insert m.next_address first m.store),
          find-insert b m.next_address first m.store,
        )
      ];
      below = λ j b q. ground (arith, q, v.below j b, find-insert j id m.next_address m.rooms);
    }

pub none-IsServing : (m : Manager) → m.rooms ≡ [] → IsServing m
unfolding find
none-IsServing m e = record {
  known = λ id a p. ground (arith, e, p);
  below = λ id a p. ground (arith, e, p);
}
