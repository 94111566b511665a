-- ===== src/Room/Found.antt =====
-- The rooms that the manager finds, after any requests, tasks and shutdowns.
use rsp.Base.{
  ℕ, ◌≡◌, refl, subst, Bool, true, not, some, List, [], ◌∷◌, Bytes, nat_key, bytes_key, arith,
  ==_iff, Option-cases, Bool-cases, inl, inr,
}
use rsp.Base.Map.{find, find-insert}
use rsp.Room.Instance.{
  User, KickoutReason, new_room, join_room, leave_room, close_impl, kick_out_user_impl,
}
use rsp.Room.Manager.{
  Manager, init, create_room, find_room, holds, left_room, close_room, stop_admission,
}
use rsp.Room.Handler.{
  update_room, handle_create, run_join, run_close, run_leave, run_kick, close_all, shutdown,
}
use rsp.Room.Run.{Event, creates, joins, leaves, kicks, closes, shuts_down, step, run}
use rsp.Room.Serving.{
  serves, IsServing, update_room-IsServing, joined_room-IsServing, left_room-IsServing,
  join_room-serves, leave_room-serves, kick_out_user_impl-serves, closed-IsServing, made-IsServing,
  none-IsServing,
}

run_join-IsServing :
    (begun : Bool) (uid route : Bytes) (a : ℕ) (m : Manager)
    → IsServing m
    → IsServing (run_join begun uid route a m).2
unfolding run_join
run_join-IsServing begun uid route a m v = elim (Option-cases (find a m.store)) [
  | inl e ↦ subst IsServing (ground (arith, e)) v
  | inr (r, e) ↦
      let m' = update_room a (join_room begun uid route r).2 m in
      let v' =
        update_room-IsServing a r (join_room begun uid route r).2 m v e
          (join_room-serves begun uid route r) in
      elim (Bool-cases (join_room begun uid route r).0) [
        | inl h ↦
            subst IsServing (ground (arith, e, h)) (joined_room-IsServing uid r.room_id a m' v')
        | inr h ↦ subst IsServing (ground (arith, e, h)) v'
      ]
]

run_kick-IsServing :
    (uid : Bytes) (reason : KickoutReason) (a : ℕ) (m : Manager)
    → IsServing m
    → IsServing (run_kick uid reason a m).1
unfolding run_kick
run_kick-IsServing uid reason a m v = elim (Option-cases (find a m.store)) [
  | inl e ↦ subst IsServing (ground (arith, e)) v
  | inr (r, e) ↦ subst IsServing (ground (arith, e)) (
      update_room-IsServing a r (kick_out_user_impl uid reason r).1 m v e
        (kick_out_user_impl-serves uid reason r))
]

holds-find : (id a : ℕ) (m : Manager) → holds id a m ≡ true → find id m.rooms ≡ some a
unfolding holds
holds-find id a m h = elim (Option-cases (find id m.rooms)) [
  | inl e ↦ ground (arith, e, h)
  | inr (b, e) ↦ ground (arith, e, h, ==_iff b a)
]

run_close-IsServing : (id a : ℕ) (m : Manager) → IsServing m → IsServing (run_close id a m).1
unfolding run_close close_room update_room
run_close-IsServing id a m v = elim (Bool-cases (holds id a m)) [
  | inr h ↦ subst IsServing (ground (arith, h)) v
  | inl h ↦
      let p = holds-find id a m h in
      elim (Option-cases (find a m.store)) [
        | inl e ↦ absurd (ground (arith, e, v.known id a p))
        | inr (r, e) ↦
            subst IsServing (ground (arith, e, h))
              (closed-IsServing id a r (close_impl r).1 (close_room id a m).1.user_rooms m v p e)
      ]
]

run_leave-IsServing :
    (begun : Bool) (uid : Bytes) (a : ℕ) (m : Manager)
    → IsServing m
    → IsServing (run_leave begun uid a m).2
unfolding run_leave
run_leave-IsServing begun uid a m v = elim (Option-cases (find a m.store)) [
  | inl e ↦ subst IsServing (ground (arith, e)) v
  | inr (r, e) ↦
      let m' = update_room a (leave_room begun uid r).3 m in
      let v' =
        update_room-IsServing a r (leave_room begun uid r).3 m v e
          (leave_room-serves begun uid r) in
      let v'' = left_room-IsServing uid r.room_id a m' v' in
      elim (Bool-cases (leave_room begun uid r).0) [
        | inr h ↦ subst IsServing (ground (arith, e, h)) v'
        | inl h ↦ elim (Bool-cases (leave_room begun uid r).2) [
          | inr k ↦ subst IsServing (ground (arith, e, h, k)) v''
          | inl k ↦
              subst IsServing (ground (arith, e, h, k))
                (run_close-IsServing r.room_id a (left_room uid r.room_id a m').1 v'')
        ]
      ]
]

handle_create-IsServing :
    (begun : Bool) (id : ℕ) (uid route : Bytes) (m : Manager)
    → IsServing m
    → IsServing (handle_create begun id uid route m).1
unfolding handle_create create_room update_room
handle_create-IsServing begun id uid route m v =
    let owner : User = record { uid = uid; route = route } in
    elim (Bool-cases (not begun)) [
      | inl h ↦ subst IsServing (ground (arith, h)) v
      | inr h ↦ elim (Bool-cases m.stopping) [
        | inl k ↦ subst IsServing (ground (arith, h, k)) v
        | inr k ↦
            subst IsServing
              (ground (
                arith,
                h,
                k,
                ==_iff m.next_address m.next_address,
                find-insert m.next_address m.next_address (new_room id owner) m.store,
              ))
              (made-IsServing id owner uid m v)
      ]
    ]

rooms-close_all : (as' : List ℕ) (m : Manager) → (close_all as' m).1.rooms ≡ m.rooms
unfolding close_all update_room
rooms-close_all [] m = refl
rooms-close_all (a ∷ as') m = elim (Option-cases (find a m.store)) [
  | inl e ↦ ground (arith, e, rooms-close_all as' m)
  | inr (r, e) ↦ ground (arith, e, rooms-close_all as' (update_room a (close_impl r).1 m))
]

shutdown-IsServing : (m : Manager) → IsServing (shutdown m).1
unfolding shutdown stop_admission
shutdown-IsServing m =
    none-IsServing (shutdown m).1 (rooms-close_all (stop_admission m).0 (stop_admission m).1)

step-IsServing : (e : Event) (m : Manager) → IsServing m → IsServing (step e m)
unfolding step
step-IsServing (creates begun id uid route) m v = handle_create-IsServing begun id uid route m v
step-IsServing (joins begun uid route a) m v = run_join-IsServing begun uid route a m v
step-IsServing (leaves begun uid a) m v = run_leave-IsServing begun uid a m v
step-IsServing (kicks uid reason a) m v = run_kick-IsServing uid reason a m v
step-IsServing (closes id a) m v = run_close-IsServing id a m v
step-IsServing shuts_down m v = shutdown-IsServing m

run-IsServing : (es : List Event) (m : Manager) → IsServing m → IsServing (run es m)
unfolding run
run-IsServing [] m v = v
run-IsServing (e ∷ es) m v = run-IsServing es (step e m) (step-IsServing e m v)

-- After any requests, tasks of rooms and shutdowns of a new manager, whatever rooms the tasks run
-- on, a room that is found under an id is open, has that id and has its contents.
pub run-serves :
    (es : List Event) (id a : ℕ)
    → find_room id (run es init) ≡ some a
    → serves id (find a (run es init).store) ≡ true
unfolding find_room
run-serves es id a p = (run-IsServing es init (none-IsServing init refl)).known id a p
