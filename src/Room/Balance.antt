-- ===== src/Room/Balance.antt =====
-- room.cpp: what the contents of one room hear of a user, over any sequence of the room's tasks.
use rsp.Base.{
  bit, count, count-append, ℕ, ◌+◌, ◌≡◌, refl, Bool, true, false, some, List, [], ◌∷◌, ◌++◌,
  if◌then◌else◌, Bytes, bytes_key, arith, Option-cases, inl, inr,
}
use rsp.Base.Map.{find, contains, find-insert, find-erase}
use rsp.Room.Instance.{
  User, Room, Effect, KickoutReason, is_open, new_room, make_contents, call, join_room, leave_room,
  close_impl, kick_out_user_impl,
}

pub data Task : Type 0 where
  joins : (begun : Bool) (uid route : Bytes) → Task
  leaves : (begun : Bool) (uid : Bytes) → Task
  kicks : (uid : Bytes) (reason : KickoutReason) → Task
  closes : Task

unfoldable pub step : Task → Room → List Effect × Room
step (joins begun uid route) r =
    let (ok, effects, r') = join_room begun uid route r in (effects, r')
step (leaves begun uid) r = let (ok, effects, empty, r') = leave_room begun uid r in (effects, r')
step (kicks uid reason) r = kick_out_user_impl uid reason r
step closes r = close_impl r

unfoldable pub run : List Task → Room → List Effect × Room
unfolding step
run [] r = ([], r)
run (t ∷ ts) r = let (now, r') = step t r in let (later, r'') = run ts r' in (now ++ later, r'')

-- No kick follows a close.
abbrev pub no_kicks : List Task → Bool
no_kicks [] = true
no_kicks (kicks uid reason ∷ ts) = false
no_kicks (t ∷ ts) = no_kicks ts

abbrev pub orderly : List Task → Bool
orderly [] = true
orderly (closes ∷ ts) = no_kicks ts
orderly (t ∷ ts) = orderly ts

abbrev pub enters : Bytes → Effect → Bool
enters uid (Effect.on_user_enter u) = bytes_key.beq uid u
enters uid e = false

-- The user's exit, or the user's kick.
abbrev pub exits : Bytes → Effect → Bool
exits uid (Effect.on_user_exit u) = bytes_key.beq uid u
exits uid (Effect.on_kicked_out_user u reason) = bytes_key.beq uid u
exits uid e = false

abbrev pub undefined : Effect → Bool
undefined Effect.null_contents = true
undefined e = false

abbrev pub present : Bytes → Room → ℕ
present uid r = bit (contains uid r.users)

-- An open room has contents.
abbrev pub is_live : Room → Bool
is_live r = if is_open r.lifecycle then r.contents else true

-- What a task does to a user's place in the room, with the contents told of it.
abbrev Heard : Bytes → Room → List Effect × Room → Type 0
Heard uid r (es, r') =
    (count (enters uid) es + present uid r ≡ count (exits uid) es + present uid r')
    × (count undefined es ≡ 0)
    × (is_live r' ≡ true)

join_room-Heard :
    (uid : Bytes) (begun : Bool) (u route : Bytes) (r : Room)
    → is_live r ≡ true
    → Heard uid r (step (joins begun u route) r)
unfolding step join_room call
join_room-Heard uid begun u route r l = elim (Option-cases (find u r.users)) [
  | inl e ↦ ground (
    arith,
    find-insert uid u (record { uid = u; route = route }) r.users,
    bytes_key.beq_iff uid u,
  )
  | inr (v, e) ↦
      ground
        (arith, find-insert uid u (record v { route = route }) r.users, bytes_key.beq_iff uid u)
]

leave_room-Heard :
    (uid : Bytes) (begun : Bool) (u : Bytes) (r : Room)
    → is_live r ≡ true
    → Heard uid r (step (leaves begun u) r)
unfolding step leave_room call
leave_room-Heard uid begun u r l = ground (arith, find-erase uid u r.users, bytes_key.beq_iff uid u)

kick-Heard :
    (uid u : Bytes) (reason : KickoutReason) (r : Room)
    → is_live r ≡ true
    → is_open r.lifecycle ≡ true
    → Heard uid r (step (kicks u reason) r)
unfolding step kick_out_user_impl call
kick-Heard uid u reason r l o = ground (arith, find-erase uid u r.users, bytes_key.beq_iff uid u)

close_impl-Heard : (uid : Bytes) (r : Room) → is_live r ≡ true → Heard uid r (step closes r)
unfolding step close_impl
close_impl-Heard uid r l = ground arith

-- Whether the tasks have no kick that finds the room closed.
abbrev pub allowed : Room → List Task → Bool
allowed r ts = if is_open r.lifecycle then orderly ts else no_kicks ts

step-allowed :
    (t : Task) (ts : List Task) (r : Room)
    → allowed r (t ∷ ts) ≡ true
    → allowed (step t r).1 ts ≡ true
unfolding step join_room leave_room kick_out_user_impl close_impl
step-allowed (joins begun u route) ts r a = ground arith
step-allowed (leaves begun u) ts r a = ground arith
step-allowed (kicks u reason) ts r a = ground arith
step-allowed closes ts r a = ground arith

step-Heard :
    (uid : Bytes) (t : Task) (ts : List Task) (r : Room)
    → is_live r ≡ true
    → allowed r (t ∷ ts) ≡ true
    → Heard uid r (step t r)
step-Heard uid (joins begun u route) ts r l a = join_room-Heard uid begun u route r l
step-Heard uid (leaves begun u) ts r l a = leave_room-Heard uid begun u r l
step-Heard uid (kicks u reason) ts r l a = kick-Heard uid u reason r l (ground arith)
step-Heard uid closes ts r l a = close_impl-Heard uid r l

run-Heard :
    (uid : Bytes) (ts : List Task) (r : Room)
    → is_live r ≡ true
    → allowed r ts ≡ true
    → Heard uid r (run ts r)
unfolding run
run-Heard uid [] r l a = (refl, refl, l)
run-Heard uid (t ∷ ts) r l a =
    let one = step-Heard uid t ts r l a in
    let more = run-Heard uid ts (step t r).1 one.2 (step-allowed t ts r a) in
    let count_now = λ (p : Effect → Bool). count-append p (step t r).0 (run ts (step t r).1).0 in
    (
      omega (arith, one.0, more.0, count_now (enters uid), count_now (exits uid)),
      omega (arith, one.1, more.1, count_now undefined),
      more.2,
    )

-- A new room runs any joins, leaves, kicks and closes in which no kick follows a close. Then the
-- contents have heard of each user's entries and exits (a kick counts as an exit) exactly in
-- balance with the user's place in the room, where the owner's place at the start counts as one
-- entry, and no call went through the null pointer.
pub run-new_room :
    (id : ℕ) (owner : User) (uid : Bytes) (ts : List Task)
    → orderly ts ≡ true
    → let (effects, r) = run ts (make_contents (new_room id owner)) in
      (count (enters uid) effects + present uid (new_room id owner)
        ≡ count (exits uid) effects + present uid r)
      × (count undefined effects ≡ 0)
unfolding make_contents new_room
run-new_room id owner uid ts o =
    let h = run-Heard uid ts (make_contents (new_room id owner)) refl o in (h.0, h.1)

-- A kick of a member after the close of an open room: the user's route is notified, and then the
-- call of the contents goes through the null pointer.
pub kick_closed :
    (uid : Bytes) (reason : KickoutReason) (u : User) (r : Room)
    → find uid r.users ≡ some u
    → is_open r.lifecycle ≡ true
    → let closed = (close_impl r).1 in
      (kick_out_user_impl uid reason closed).0
      ≡ Effect.ntf_leave_room u.route uid reason ∷ Effect.null_contents ∷ []
unfolding kick_out_user_impl close_impl call
kick_closed uid reason u r f o = ground arith
