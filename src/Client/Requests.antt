-- ===== src/Client/Requests.antt =====
-- What a user types in a state of the client, and the requests that the client sends for it.
use rsp.Base.{
  ℕ, suc, ◌^◌, ◌≡◌, refl, ap, Bool, true, false, not, ◌&&◌, Option, none, some, List, [], ◌∷◌, ◌++◌,
  ltb, if◌then◌else◌, is_empty, Bytes, arith, bytes_key,
}
use rsp.Client.RoomId.{all_digits, decimal, read_room_id_lem}
use rsp.Client.States.{
  Outgoing, req_login, req_logout, req_create_room, req_join_room, fwd_room, req_leave_room, Action,
  sends, shows, prints, StateObject, state_init, state_login, state_in_room, on_command,
  login_command, room_command, PendingInput, command, message, kickout_user, kickout_text, next_id,
}

-- The texts that are typed, one after the other, with no message of the server in between.
unfoldable pub type_all : List Bytes → StateObject → List Action × StateObject
unfolding on_command
type_all [] o = ([], o)
type_all (text ∷ texts) o =
    let (now, o') = on_command text o in let (later, o'') = type_all texts o' in (now ++ later, o'')

abbrev pub sent : List Action → List Outgoing
sent [] = []
sent (sends m ∷ as') = m ∷ sent as'
sent (shows q ∷ as') = sent as'
sent (prints t ∷ as') = sent as'

-- The prompts of the two states number what can be done: "1) logout, 2) create_room, 3) join_room",
-- and "1) logout 2) send message 3) leave room 4) kickout".
pub data Choice : Type 0 where
  logout create_room join_room send_message leave_room kickout : Choice

abbrev pub login_menu : List Choice
login_menu = logout ∷ create_room ∷ join_room ∷ []

abbrev pub room_menu : List Choice
room_menu = logout ∷ send_message ∷ leave_room ∷ kickout ∷ []

-- The choice that a text of one digit names, `digit` being the first one's.
abbrev pub chosen : (digit : ℕ) → List Choice → Bytes → Option Choice
chosen digit [] text = none
chosen digit (c ∷ cs) text =
    let other = chosen (suc digit) cs text in
    if bytes_key.beq text (digit ∷ []) then some c else other

-- A request but for its id, and what a choice still asks the user for.
pub data Wish : Type 0 where
  to_log_out to_create to_leave : Wish
  to_join : (room_id : ℕ) → Wish
  to_say : Bytes → Wish

pub data Asking : Type 0 where
  a_choice a_room_id a_message a_user : Asking

abbrev pub wished : Choice → List Wish
wished logout = to_log_out ∷ []
wished create_room = to_create ∷ []
wished leave_room = to_leave ∷ []
wished c = []

abbrev pub asked : Choice → Asking
asked join_room = a_room_id
asked send_message = a_message
asked kickout = a_user
asked c = a_choice

-- A text of digits that fits uint32_t.
abbrev pub number : Bytes → Option ℕ
number text =
    if not (is_empty text) && (all_digits text && ltb (decimal 0 text) (2 ^ 32))
    then some (decimal 0 text)
    else none

abbrev pub wishes : List Choice → Asking → List Bytes → List Wish
wishes menu asking [] = []
wishes menu a_choice (t ∷ ts) = elim (chosen b'1' menu t) [
  | none ↦ wishes menu a_choice ts
  | some c ↦ wished c ++ wishes menu (asked c) ts
]
wishes menu a_room_id (t ∷ ts) = elim (number t) [
  | none ↦ wishes menu a_room_id ts
  | some id ↦ to_join id ∷ wishes menu a_choice ts
]
wishes menu a_message (t ∷ ts) = to_say t ∷ wishes menu a_choice ts
wishes menu a_user (t ∷ ts) = to_say (kickout_text t) ∷ wishes menu a_choice ts

-- The requests of the wishes, their ids counted up; a message has none.
abbrev pub numbered : ℕ → List Wish → List Outgoing
numbered n [] = []
numbered n (to_log_out ∷ ws) = req_logout n ∷ numbered (next_id n) ws
numbered n (to_create ∷ ws) = req_create_room n ∷ numbered (next_id n) ws
numbered n (to_leave ∷ ws) = req_leave_room n ∷ numbered (next_id n) ws
numbered n (to_join id ∷ ws) = req_join_room n id ∷ numbered (next_id n) ws
numbered n (to_say t ∷ ws) = fwd_room t ∷ numbered n ws

abbrev pub logins : ℕ → List Bytes → List Outgoing
logins n [] = []
logins n (t ∷ ts) = req_login n t ∷ logins (next_id n) ts

abbrev asking_id : Bool → Asking
asking_id true = a_room_id
asking_id false = a_choice

abbrev asking_input : PendingInput → Asking
asking_input command = a_choice
asking_input message = a_message
asking_input kickout_user = a_user

sent-init : (ts : List Bytes) (n : ℕ) → sent (type_all ts (state_init n)).0 ≡ logins n ts
unfolding type_all on_command
sent-init [] n = refl
sent-init (t ∷ ts) n = ap (◌∷◌ (req_login n t)) (sent-init ts (next_id n))

sent-login :
    (ts : List Bytes) (n : ℕ) (awaiting : Bool)
    → sent (type_all ts (state_login n awaiting)).0
      ≡ numbered n (wishes login_menu (asking_id awaiting) ts)
unfolding type_all on_command login_command
sent-login [] n awaiting = ground arith
sent-login (t ∷ ts) n false =
    ground (arith, sent-login ts n false, sent-login ts n true, sent-login ts (next_id n) false)
sent-login (t ∷ ts) n true =
    ground (arith, read_room_id_lem t, sent-login ts n true, sent-login ts (next_id n) false)

sent-room :
    (ts : List Bytes) (n : ℕ) (input : PendingInput)
    → sent (type_all ts (state_in_room n input)).0
      ≡ numbered n (wishes room_menu (asking_input input) ts)
unfolding type_all on_command room_command
sent-room [] n input = ground arith
sent-room (t ∷ ts) n command = ground (
  arith,
  sent-room ts n command,
  sent-room ts n message,
  sent-room ts n kickout_user,
  sent-room ts (next_id n) command,
)
sent-room (t ∷ ts) n message = ap (◌∷◌ (fwd_room t)) (sent-room ts n command)
sent-room (t ∷ ts) n kickout_user = ap (◌∷◌ (fwd_room (kickout_text t))) (sent-room ts n command)

-- Whatever is typed into a state of the client, while the server is silent: before the login each
-- text is a login; outside a room and in one, the requests that are sent are those that the texts
-- choose from the numbered menu of the prompt, with the room id, the message or the name that a
-- choice asks for; and the ids of the requests that have one count up from the state's.
pub sent-type_all :
    (ts : List Bytes) (n : ℕ)
    → (sent (type_all ts (state_init n)).0 ≡ logins n ts)
      × (sent (type_all ts (state_login n false)).0 ≡ numbered n (wishes login_menu a_choice ts))
      × (sent (type_all ts (state_in_room n command)).0 ≡ numbered n (wishes room_menu a_choice ts))
sent-type_all ts n = (sent-init ts n, sent-login ts n false, sent-room ts n command)
