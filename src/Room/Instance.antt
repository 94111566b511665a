-- ===== src/Room/Instance.antt =====
-- room.hpp and room.cpp: one room. Each function is the body of a task on the room's strand.
use rsp.Base.{
  ℕ, Bool, true, false, none, some, List, [], ◌∷◌, not, ◌||◌, if◌then◌else◌, Bytes, bytes_key, ◌==◌,
  length, map,
}
use rsp.Base.Map.{Map, find, insert, erase, contains}

pub record User : Type 0 where
  pub uid : Bytes
  pub route : Bytes

pub data Lifecycle : Type 0 where
  opened closing closed : Lifecycle

-- `contents` is whether `contents_` holds an object.
pub record Room : Type 0 where
  pub room_id : ℕ
  pub owner : User
  pub users : Map Bytes User
  pub contents : Bool
  pub lifecycle : Lifecycle

pub data KickoutReason : Type 0 where
  admin room_owner room_voting other : KickoutReason

pub data SenderType : Type 0 where
  content : SenderType
  user : Bytes → SenderType

-- What a task does outside the room: calls of the contents, notifications to a route, and
-- `null_contents`, a call through the null `contents_`, which is undefined behaviour.
pub data Effect : Type 0 where
  on_create_room : ℕ → Effect
  on_user_enter : Bytes → Effect
  on_user_exit : Bytes → Effect
  on_destroy_room : Effect
  on_recv_message : Bytes → Bytes → Effect
  on_kicked_out_user : Bytes → KickoutReason → Effect
  ntf_leave_room : Bytes → Bytes → KickoutReason → Effect
  fwd_client : Bytes → Bytes → SenderType → Bytes → Effect
  null_contents : Effect

abbrev pub is_open : Lifecycle → Bool
is_open opened = true
is_open l = false

unfoldable pub new_room : ℕ → User → Room
new_room room_id owner = record {
  room_id = room_id;
  owner = owner;
  users = insert owner.uid owner [];
  contents = false;
  lifecycle = opened;
}

-- A call through `contents_`.
unfoldable pub call : Effect → Room → List Effect
call e r = if r.contents then e ∷ [] else null_contents ∷ []

-- create_room: the contents are made, and the task `on_create_room` is posted. The factory of the
-- contents library is taken to give an object.
unfoldable pub make_contents : Room → Room
make_contents r = record r { contents = true }

unfoldable pub run_on_create_room : Room → List Effect
unfolding call
run_on_create_room r = call (on_create_room r.room_id) r

-- The argument of `before_notify`, whether the contents hear of the user, and the room. `begun` is
-- the result of `begin()`.
unfoldable pub join_room : Bool → Bytes → Bytes → Room → Bool × List Effect × Room
unfolding call
join_room begun uid route r =
    if not begun || not (is_open r.lifecycle)
    then (false, [], r)
    else (let member : User = elim (find uid r.users) [
      | none ↦ record { uid = uid; route = route }
      | some u ↦ record u { route = route }
    ] in
        let joined : Room = record r { users = insert uid member r.users } in
        (true, (if contains uid r.users then [] else call (on_user_enter uid) joined), joined))

-- The argument of `before_notify`, the call of the contents, whether the room is empty, and the room.
unfoldable pub leave_room : Bool → Bytes → Room → Bool × List Effect × Bool × Room
unfolding call
leave_room begun uid r =
    if not begun || (not (is_open r.lifecycle) || not (contains uid r.users))
    then (false, [], false, r)
    else (let left : Room = record r { users = erase uid r.users } in
        let empty : Bool = elim left.users [ [] ↦ true | _ ↦ false ] in
        (true, call (on_user_exit uid) left, empty, left))

-- An exception of the contents is caught.
unfoldable pub close_impl : Room → List Effect × Room
close_impl r = if not (is_open r.lifecycle) then ([], r) else (
  (if r.contents then on_destroy_room ∷ [] else []),
  record r { contents = false; lifecycle = closed },
)

unfoldable pub kick_out_user_impl : Bytes → KickoutReason → Room → List Effect × Room
unfolding call
kick_out_user_impl uid reason r = elim (find uid r.users) [
  | none ↦ ([], r)
  | some u ↦ (
    ntf_leave_room u.route uid reason ∷ call (on_kicked_out_user uid reason) r,
    record r { users = erase uid r.users },
  )
]

-- users(): in the order of the user ids.
unfoldable pub users_of : Room → List Bytes
users_of r = map (λ e. e.1.uid) r.users

unfoldable pub recv_message : Bytes → Bytes → Room → List Effect
unfolding call
recv_message from msg r = call (on_recv_message from msg) r

-- The members among some user ids.
unfoldable pub members : List Bytes → Room → List User
members [] r = []
members (uid ∷ uids) r =
    let rest = members uids r in elim (find uid r.users) [ none ↦ rest | some u ↦ u ∷ rest ]

unfoldable pub send_to_user_impl : SenderType → List User → Bytes → List Effect
send_to_user_impl sender [] msg = []
send_to_user_impl sender (u ∷ us) msg =
    fwd_client u.route u.uid sender msg ∷ send_to_user_impl sender us msg

-- send_to_user, and the task that it posts.
unfoldable pub send_to_user : SenderType → List Bytes → Bytes → Room → Bool × List Effect
unfolding members send_to_user_impl
send_to_user sender uids msg r =
    let found = members uids r in
    if length uids == length found then (true, send_to_user_impl sender found msg) else (false, [])

unfoldable pub send_to_all_user : SenderType → Bytes → Room → List Effect
unfolding send_to_user_impl
send_to_all_user sender msg r = send_to_user_impl sender (map (λ e. e.1) r.users) msg
