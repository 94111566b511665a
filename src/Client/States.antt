-- ===== src/Client/States.antt =====
-- state.hpp, state_init.hpp, state_login.hpp, state_in_room.hpp, state_exit.hpp, context.hpp and
-- factory.hpp: the states of the client's user interface. A state object is its kind and its
-- fields. What a state does is a list of actions, in order.
use rsp.Base.{
  ℕ, suc, ◌%◌, ◌^◌, Bool, true, false, Option, none, some, List, [], ◌∷◌, ◌++◌, ◌==◌, if◌then◌else◌,
  Bytes, bytes_key,
}
use rsp.Wire.Serializer.{Protobuf, deserialize}
use rsp.MessageType
use rsp.Client.RoomId.{read_room_id}

pub data State : Type 0 where
  init logged_in in_room exit : State

pub record Context : Type 0 where
  pub uid : Bytes
  pub room_id : ℕ

unfoldable pub clear : Context → Context
clear c = record { uid = []; room_id = 0 }

-- The messages of the User server, as the client reads them.
pub record ResLogin : Type 0 where
  pub uid : Bytes

pub record ResLogout : Type 0 where
  pub uid : Bytes

-- ResCreateRoom and ResJoinRoom have the same fields.
pub record RoomResult : Type 0 where
  pub success : Bool
  pub room_id : ℕ

pub record ResLeaveRoom : Type 0 where
  pub success : Bool

pub record FwdClient : Type 0 where
  pub sender_type : ℕ
  pub sender_uid : Bytes
  pub message : Bytes

pub record NtfLeaveRoom : Type 0 where
  pub reason : ℕ
  pub kickout_reason : ℕ

-- The generated classes, which are not in the source.
pub record Messages : Type 0 where
  pub res_login : Protobuf ResLogin
  pub res_logout : Protobuf ResLogout
  pub res_create_room : Protobuf RoomResult
  pub res_join_room : Protobuf RoomResult
  pub res_leave_room : Protobuf ResLeaveRoom
  pub fwd_client : Protobuf FwdClient
  pub ntf_leave_room : Protobuf NtfLeaveRoom

-- What the client sends.
pub data Outgoing : Type 0 where
  pong : Outgoing
  req_login : (request_id : ℕ) (uid : Bytes) → Outgoing
  req_logout : (request_id : ℕ) → Outgoing
  req_create_room : (request_id : ℕ) → Outgoing
  req_join_room : (request_id room_id : ℕ) → Outgoing
  fwd_room : (message : Bytes) → Outgoing
  req_leave_room : (request_id : ℕ) → Outgoing

pub data Prompt : Type 0 where
  type_user_name login_commands room_id_must_be_number put_room_id incorrect room_commands
        type_message type_kickout unable_to_leave closing :
      Prompt

-- `prints` is a line on std::cout.
pub data Action : Type 0 where
  sends : Outgoing → Action
  shows : Prompt → Action
  prints : Bytes → Action

pub data PendingInput : Type 0 where
  command message kickout_user : PendingInput

pub data StateObject : Type 0 where
  state_init : (request_id : ℕ) → StateObject
  state_login : (request_id : ℕ) (awaiting_room_id : Bool) → StateObject
  state_in_room : (request_id : ℕ) → PendingInput → StateObject
  state_exit : (request_id : ℕ) → StateObject

abbrev pub kind : StateObject → State
kind (state_init n) = init
kind (state_login n awaiting) = logged_in
kind (state_in_room n input) = in_room
kind (state_exit n) = exit

-- factory::create and `enter()`: the new object has request id 0, and an exit clears the context.
unfoldable pub create : State → Context → List Action × StateObject × Context
unfolding clear
create init ctx = (shows type_user_name ∷ [], state_init 0, ctx)
create logged_in ctx = (shows login_commands ∷ [], state_login 0 false, ctx)
create in_room ctx = (shows room_commands ∷ [], state_in_room 0 command, ctx)
create exit ctx = (shows closing ∷ [], state_exit 0, clear ctx)

-- get_request_id leaves this behind: a uint64_t.
abbrev pub next_id : ℕ → ℕ
next_id n = suc n % 2 ^ 64

-- "kickout:" before the name.
abbrev pub kickout_text : Bytes → Bytes
kickout_text name = b'k' ∷ b'i' ∷ b'c' ∷ b'k' ∷ b'o' ∷ b'u' ∷ b't' ∷ b':' ∷ name

abbrev is : Bytes → ℕ → Bool
is text c = bytes_key.beq text (c ∷ [])

unfoldable pub login_command : ℕ → Bytes → List Action × StateObject
login_command n text =
    if is text b'1'
    then (sends (req_logout n) ∷ [], state_login (next_id n) false)
    else (if is text b'2'
        then (sends (req_create_room n) ∷ [], state_login (next_id n) false)
        else (if is text b'3'
            then (shows put_room_id ∷ [], state_login n true)
            else (shows incorrect ∷ [], state_login n false)))

unfoldable pub room_command : ℕ → Bytes → List Action × StateObject
room_command n text =
    if is text b'1'
    then (sends (req_logout n) ∷ [], state_in_room (next_id n) command)
    else (if is text b'2'
        then (shows type_message ∷ [], state_in_room n message)
        else (if is text b'3'
            then (sends (req_leave_room n) ∷ [], state_in_room (next_id n) command)
            else (if is text b'4'
                then (shows type_kickout ∷ [], state_in_room n kickout_user)
                else (shows incorrect ∷ [], state_in_room n command))))

-- on_command of each state; none of them asks for a transition.
unfoldable pub on_command : Bytes → StateObject → List Action × StateObject
unfolding login_command room_command
on_command text (state_init n) = (sends (req_login n text) ∷ [], state_init (next_id n))
on_command text (state_login n false) = login_command n text
on_command text (state_login n true) = elim (read_room_id text) [
  | none ↦ (shows room_id_must_be_number ∷ [], state_login n true)
  | some id ↦ (sends (req_join_room n id) ∷ [], state_login (next_id n) false)
]
on_command text (state_in_room n command) = room_command n text
on_command text (state_in_room n message) =
    (sends (fwd_room text) ∷ shows room_commands ∷ [], state_in_room n command)
on_command text (state_in_room n kickout_user) =
    (sends (fwd_room (kickout_text text)) ∷ shows room_commands ∷ [], state_in_room n command)
on_command text (state_exit n) = ([], state_exit n)

-- What on_message does: actions, the object, the context and the transition.
pub record Reaction : Type 0 where
  pub actions : List Action
  pub object : StateObject
  pub context : Context
  pub transition : Option State

abbrev pub stay : List Action → StateObject → Context → Reaction
stay actions o ctx = record { actions = actions; object = o; context = ctx; transition = none }

abbrev pub go_to : State → StateObject → Context → Reaction
go_to s o ctx = record { actions = []; object = o; context = ctx; transition = some s }

-- base_state::on_message
unfoldable pub base_on_message : ℕ → StateObject → Context → Reaction
base_on_message type o ctx =
    if type == MessageType.ping then stay (sends pong ∷ []) o ctx else go_to exit o ctx

unfoldable pub handle_res_logout : Option ResLogout → StateObject → Context → Reaction
handle_res_logout none o ctx = stay [] o ctx
handle_res_logout (some r) o ctx = go_to exit o ctx

-- handle_res_create_room and handle_res_join_room; a refusal calls `enter()` again.
unfoldable pub handle_res_room : Option RoomResult → ℕ → Bool → Context → Reaction
handle_res_room none n awaiting ctx = stay [] (state_login n awaiting) ctx
handle_res_room (some r) n awaiting ctx =
    if r.success
    then go_to in_room (state_login n awaiting) (record ctx { room_id = r.room_id })
    else stay (shows login_commands ∷ []) (state_login n false) ctx

-- "room sent message: " before the text, or "(uid):" before it.
abbrev pub room_text : Bytes → Bytes
room_text text =
    b'r' ∷ b'o' ∷ b'o' ∷ b'm' ∷ b' ' ∷ b's' ∷ b'e' ∷ b'n' ∷ b't' ∷ b' ' ∷ b'm' ∷ b'e' ∷ b's' ∷ b's'
    ∷ b'a' ∷ b'g' ∷ b'e' ∷ b':' ∷ b' ' ∷ text

abbrev pub user_text : Bytes → Bytes → Bytes
user_text uid text = b'(' ∷ uid ++ b')' ∷ b':' ∷ text

unfoldable pub handle_fwd_client : Option FwdClient → StateObject → Context → Reaction
handle_fwd_client none o ctx = stay [] o ctx
handle_fwd_client (some f) o ctx =
    if f.sender_type == 0
    then stay (prints (room_text f.message) ∷ []) o ctx
    else (if f.sender_type == 1
        then stay (prints (user_text f.sender_uid f.message) ∷ []) o ctx
        else stay [] o ctx)

unfoldable pub handle_ntf_leave_room : Option NtfLeaveRoom → StateObject → Context → Reaction
handle_ntf_leave_room none o ctx = stay [] o ctx
handle_ntf_leave_room (some r) o ctx = go_to logged_in o (record ctx { room_id = 0 })

unfoldable pub handle_res_leave_room : Option ResLeaveRoom → StateObject → Context → Reaction
handle_res_leave_room none o ctx = stay [] o ctx
handle_res_leave_room (some r) o ctx =
    if r.success
    then go_to logged_in o (record ctx { room_id = 0 })
    else stay (shows unable_to_leave ∷ []) o ctx

unfoldable pub handle_res_login : Option ResLogin → StateObject → Context → Reaction
handle_res_login none o ctx = stay [] o ctx
handle_res_login (some r) o ctx = go_to logged_in o (record ctx { uid = r.uid })

module _ (p : Messages) where
  -- on_message of each state.
  unfoldable pub on_message : ℕ → Bytes → StateObject → Context → Reaction
  unfolding deserialize base_on_message
  on_message type payload (state_init n) ctx =
      if type == MessageType.res_login
      then handle_res_login (deserialize p.res_login payload) (state_init n) ctx
      else base_on_message type (state_init n) ctx
  on_message type payload (state_login n awaiting) ctx =
      if type == MessageType.res_logout
      then handle_res_logout (deserialize p.res_logout payload) (state_login n awaiting) ctx
      else (if type == MessageType.res_create_room
          then handle_res_room (deserialize p.res_create_room payload) n awaiting ctx
          else (if type == MessageType.res_join_room
              then handle_res_room (deserialize p.res_join_room payload) n awaiting ctx
              else base_on_message type (state_login n awaiting) ctx))
  on_message type payload (state_in_room n input) ctx =
      if type == MessageType.res_logout
      then handle_res_logout (deserialize p.res_logout payload) (state_in_room n input) ctx
      else (if type == MessageType.fwd_client
          then handle_fwd_client (deserialize p.fwd_client payload) (state_in_room n input) ctx
          else (if type == MessageType.ntf_leave_room
              then handle_ntf_leave_room (deserialize p.ntf_leave_room payload)
                  (state_in_room n input) ctx
              else (if type == MessageType.res_leave_room
                  then handle_res_leave_room (deserialize p.res_leave_room payload)
                      (state_in_room n input) ctx
                  else base_on_message type (state_in_room n input) ctx)))
  on_message type payload (state_exit n) ctx = base_on_message type (state_exit n) ctx
