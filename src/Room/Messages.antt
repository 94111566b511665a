-- ===== src/Room/Messages.antt =====
-- room.hpp and room.cpp: whom a message reaches.
use rsp.Base.{
  ℕ, ◌≡◌, refl, ap, ◌∙◌, true, some, List, [], ◌∷◌, Bytes, bytes_key, length, map, arith, All,
  Option-cases, inl, inr, ==_iff,
}
use rsp.Base.Map.{Map, find, insert, erase, IsSorted, Above, insert-IsSorted, erase-IsSorted}
use rsp.Room.Instance.{
  User, Room, SenderType, Effect, fwd_client, send_to_user_impl, users_of, members, send_to_user,
  send_to_all_user, join_room, leave_room, close_impl, kick_out_user_impl, new_room, make_contents,
}
use rsp.Room.Balance.{Task, joins, leaves, kicks, closes, step, run}

-- Each user stands under its own id.
abbrev pub Keyed : Map Bytes User → Type 0
Keyed = All (λ e. e.1.uid ≡ e.0)

Keyed-insert :
    (k : Bytes) (u : User) (m : Map Bytes User) → u.uid ≡ k → Keyed m → Keyed (insert k u m)
unfolding insert
Keyed-insert k u [] e a = (e, tt)
Keyed-insert k u (x ∷ m) e a = ground (arith, Keyed-insert k u m)

Keyed-erase : (k : Bytes) (m : Map Bytes User) → Keyed m → Keyed (erase k m)
unfolding erase
Keyed-erase k [] a = tt
Keyed-erase k (x ∷ m) a = ground (arith, Keyed-erase k m)

Keyed-find : (k : Bytes) (u : User) (m : Map Bytes User) → Keyed m → find k m ≡ some u → u.uid ≡ k
unfolding find
Keyed-find k u [] a h = cc
Keyed-find k u ((j, v) ∷ m) a h = ground (arith, Keyed-find k u m, bytes_key.beq_iff k j)

pub record IsOrdered (r : Room) : Type 0 where
  pub sorted : IsSorted r.users
  pub owned : Keyed r.users

step-IsOrdered : (t : Task) (r : Room) → IsOrdered r → IsOrdered (step t r).1
unfolding step join_room leave_room kick_out_user_impl close_impl
step-IsOrdered (joins begun uid route) r v = elim (Option-cases (find uid r.users)) [
  | inl e ↦
      let u : User = record { uid = uid; route = route } in
      record {
        sorted = ground (arith, v.sorted, insert-IsSorted uid u r.users);
        owned = ground (arith, v.owned, Keyed-insert uid u r.users);
      }
  | inr (w, e) ↦
      let u : User = record w { route = route } in
      record {
        sorted = ground (arith, v.sorted, insert-IsSorted uid u r.users);
        owned = ground (arith, v.owned, Keyed-insert uid u r.users, Keyed-find uid w r.users);
      }
]
step-IsOrdered (leaves begun uid) r v = record {
  sorted = ground (arith, v.sorted, erase-IsSorted uid r.users);
  owned = ground (arith, v.owned, Keyed-erase uid r.users);
}
step-IsOrdered (kicks uid reason) r v = record {
  sorted = ground (arith, v.sorted, erase-IsSorted uid r.users);
  owned = ground (arith, v.owned, Keyed-erase uid r.users);
}
step-IsOrdered closes r v = record {
  sorted = ground (arith, v.sorted);
  owned = ground (arith, v.owned);
}

run-IsOrdered : (ts : List Task) (r : Room) → IsOrdered r → IsOrdered (run ts r).1
unfolding run
run-IsOrdered [] r v = v
run-IsOrdered (t ∷ ts) r v = run-IsOrdered ts (step t r).1 (step-IsOrdered t r v)

-- Every entry of the first map is found in the second.
abbrev FoundIn : Map Bytes User → Map Bytes User → Type 0
FoundIn m whole = All (λ e. find e.0 whole ≡ some e.1) m

FoundIn-cons :
    (k : Bytes) (u : User) (m whole : Map Bytes User)
    → Above k m
    → FoundIn m whole
    → FoundIn m ((k, u) ∷ whole)
unfolding find
FoundIn-cons k u [] whole a f = tt
FoundIn-cons k u ((j, v) ∷ m) whole a f = (
  ground (arith, a, f, bytes_key.beq_iff j k, bytes_key.lt_irrefl k),
  FoundIn-cons k u m whole a.1 f.1,
)

FoundIn-self : (m : Map Bytes User) → IsSorted m → FoundIn m m
unfolding find
FoundIn-self [] s = tt
FoundIn-self ((k, u) ∷ m) s =
    (ground (arith, bytes_key.beq_iff k k), FoundIn-cons k u m m s.0 (FoundIn-self m s.1))

members-all :
    (m : Map Bytes User) (r : Room)
    → Keyed m
    → FoundIn m r.users
    → members (map (λ e. e.1.uid) m) r ≡ map (λ e. e.1) m
unfolding members
members-all [] r k f = refl
members-all ((j, u) ∷ m) r k f = ground (arith, members-all m r k.1 f.1, k.0, f.0)

length-map : {A B : Type 0} (f : A → B) (xs : List A) → length (map f xs) ≡ length xs
length-map f [] = refl
length-map f (x ∷ xs) = ap ℕ.suc (length-map f xs)

-- What each entry of the users is sent: the message, under its id and to its route.
abbrev pub forwards : SenderType → Bytes → Map Bytes User → List Effect
forwards sender msg [] = []
forwards sender msg ((uid, u) ∷ m) = fwd_client u.route uid sender msg ∷ forwards sender msg m

send_to_user_impl-forwards :
    (sender : SenderType) (msg : Bytes) (m : Map Bytes User)
    → Keyed m
    → send_to_user_impl sender (map (λ e. e.1) m) msg ≡ forwards sender msg m
unfolding send_to_user_impl
send_to_user_impl-forwards sender msg [] k = refl
send_to_user_impl-forwards sender msg ((uid, u) ∷ m) k =
    rw (k.0, send_to_user_impl-forwards sender msg m k.1) refl

all_reached :
    (sender : SenderType) (msg : Bytes) (r : Room)
    → IsOrdered r
    → send_to_user sender (users_of r) msg r ≡ (true, send_to_all_user sender msg r)
unfolding send_to_user users_of send_to_all_user
all_reached sender msg r v =
    rw
      (
        members-all r.users r v.owned (FoundIn-self r.users v.sorted),
        length-map (λ e. e.1.uid) r.users,
        length-map (λ e. e.1) r.users,
      )
      (ground (arith, ==_iff (length r.users) (length r.users)))

-- Whatever joined, left, was kicked out or closed a new room, a message to its users succeeds and is
-- forwarded to the users of the room as they stand, each under its own id and to its route, and a
-- message to all users is forwarded just so; and the users stand in strictly ascending order of their
-- ids, so that each gets the message once.
pub send_to_user-users_of :
    (id : ℕ) (owner : User) (ts : List Task) (sender : SenderType) (msg : Bytes)
    → let r = (run ts (make_contents (new_room id owner))).1 in
      (send_to_user sender (users_of r) msg r ≡ (true, forwards sender msg r.users))
      × (send_to_all_user sender msg r ≡ forwards sender msg r.users)
      × IsSorted r.users
unfolding make_contents new_room send_to_all_user
send_to_user-users_of id owner ts sender msg =
    let first : Room = make_contents (new_room id owner) in
    let start : IsOrdered first = record {
      sorted = insert-IsSorted owner.uid owner [] tt;
      owned = Keyed-insert owner.uid owner [] refl tt;
    } in
    let v = run-IsOrdered ts first start in
    let r = (run ts first).1 in
    let all = send_to_user_impl-forwards sender msg r.users v.owned in
    (all_reached sender msg r v ∙ ap (λ l. (true, l)) all, all, v.sorted)
