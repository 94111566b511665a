-- ===== src/Examples/Client.antt =====
-- A client that logs in, joins a room and stops.
use rsp.Base.{
  ℕ, zero, suc, ◌≡◌, refl, ap, Bool, true, false, Option, none, some, List, [], ◌∷◌, ◌++◌, ◌&&◌,
  not, if◌then◌else◌, Bytes, length, count, bit, ltb, is_empty, ◌^◌,
}
use rsp.MessageType.{res_login, res_join_room}
use rsp.Wire.Serializer.{Protobuf, frame}
use rsp.Client.RoomId.{read_room_id, all_digits, decimal, read_room_id_lem}
use rsp.Client.States.{
  RoomResult, ResLeaveRoom, FwdClient, NtfLeaveRoom, Messages, Outgoing, state_init, state_login,
  state_in_room, PendingInput,
}
use rsp.Client.Session.{new_client, pop_front}
use rsp.Client.Lifecycle.{
  Event, starts, commands, read, wrote, run, is_close, is_exit_call, run-new_client,
}
use rsp.Client.Transitions.{is_coherent}
use rsp.Client.Coherence.{run-starts}
use rsp.Client.Writes.{Transfer, queues, finishes, sent, written, run-written}
use rsp.Client.Writes as Transfers
use rsp.Client.Requests.{
  sent as sent_by, type_all, logins, numbered, wishes, login_menu, room_menu, Asking, sent-type_all,
}

-- A format for the messages: a text with a mark before each character, a flag as a byte.
abbrev text_then : Bytes → Bytes → Bytes
text_then [] rest = 0 ∷ rest
text_then (c ∷ s) rest = 1 ∷ c ∷ text_then s rest

abbrev put : ℕ → Option (Bytes × Bytes) → Option (Bytes × Bytes)
put c none = none
put c (some (s, rest)) = some (c ∷ s, rest)

abbrev split_text : Bytes → Option (Bytes × Bytes)
split_text [] = none
split_text (zero ∷ rest) = some ([], rest)
split_text (suc n ∷ []) = none
split_text (suc n ∷ c ∷ rest) = put c (split_text rest)

split-text_then : (s rest : Bytes) → split_text (text_then s rest) ≡ some (s, rest)
split-text_then [] rest = refl
split-text_then (c ∷ s) rest = ap (put c) (split-text_then s rest)

abbrev flag : Bool → ℕ
flag true = 1
flag false = 0

abbrev flag_of : ℕ → Bool
flag_of zero = false
flag_of (suc n) = true

flag_of-flag : (b : Bool) → flag_of (flag b) ≡ b
flag_of-flag true = refl
flag_of-flag false = refl

abbrev text_proto :
    {M : Type 0} (make : Bytes → M) (text : M → Bytes) → ((m : M) → make (text m) ≡ m) → Protobuf M
text_proto make text back = record {
  byte_size_long = λ m. length (text m);
  serialize_as_string = text;
  parse_from_istream = λ s. some (make s);
  serialize_size = λ m. refl;
  parse_serialize = λ m. ap some (back m);
}

abbrev parse_pair : Bytes → Option (ℕ × ℕ)
parse_pair (a ∷ b ∷ []) = some (a, b)
parse_pair s = none

abbrev result_of : ℕ × ℕ → RoomResult
result_of (f, id) = record { success = flag_of f; room_id = id }

abbrev reasons_of : ℕ × ℕ → NtfLeaveRoom
reasons_of (r, k) = record { reason = r; kickout_reason = k }

abbrev map_option : {A B : Type 0} → (A → B) → Option A → Option B
map_option f none = none
map_option f (some a) = some (f a)

abbrev result_proto : Protobuf RoomResult
result_proto = record {
  byte_size_long = λ m. 2;
  serialize_as_string = λ m. flag m.success ∷ m.room_id ∷ [];
  parse_from_istream = λ s. map_option result_of (parse_pair s);
  serialize_size = λ m. refl;
  parse_serialize =
      λ m. ap (λ f. some (record { success = f; room_id = m.room_id })) (flag_of-flag m.success);
}

abbrev leave_of : Bytes → Option ResLeaveRoom
leave_of (f ∷ []) = some (record { success = flag_of f })
leave_of s = none

abbrev forward_of : ℕ → Option (Bytes × Bytes) → Option FwdClient
forward_of type none = none
forward_of type (some (uid, message)) =
    some (record { sender_type = type; sender_uid = uid; message = message })

abbrev parse_forward : Bytes → Option FwdClient
parse_forward [] = none
parse_forward (type ∷ s) = forward_of type (split_text s)

abbrev messages : Messages
messages = record {
  res_login = text_proto (λ s. record { uid = s }) (λ m. m.uid) (λ m. refl);
  res_logout = text_proto (λ s. record { uid = s }) (λ m. m.uid) (λ m. refl);
  res_create_room = result_proto;
  res_join_room = result_proto;
  res_leave_room = record {
    byte_size_long = λ m. 1;
    serialize_as_string = λ m. flag m.success ∷ [];
    parse_from_istream = leave_of;
    serialize_size = λ m. refl;
    parse_serialize = λ m. ap (λ f. some (record { success = f })) (flag_of-flag m.success);
  };
  fwd_client = record {
    byte_size_long = λ m. suc (length (text_then m.sender_uid m.message));
    serialize_as_string = λ m. m.sender_type ∷ text_then m.sender_uid m.message;
    parse_from_istream = parse_forward;
    serialize_size = λ m. refl;
    parse_serialize = λ m. ap (forward_of m.sender_type) (split-text_then m.sender_uid m.message);
  };
  ntf_leave_room = record {
    byte_size_long = λ m. 2;
    serialize_as_string = λ m. m.reason ∷ m.kickout_reason ∷ [];
    parse_from_istream = λ s. map_option reasons_of (parse_pair s);
    serialize_size = λ m. refl;
    parse_serialize = λ m. refl;
  };
}

-- The user types a name, the server confirms the login and a join, and the connection ends.
abbrev session : List Event
session =
    commands (b'a' ∷ [])
    ∷ wrote false
    ∷ read (some (frame res_login (b'a' ∷ []), 13))
    ∷ commands (b'3' ∷ [])
    ∷ commands (b'7' ∷ [])
    ∷ read (some (frame res_join_room (1 ∷ 7 ∷ []), 14))
    ∷ read none
    ∷ []

run-new_client_example :
    let (effects, c) = run messages (starts ∷ session) (new_client true) in
    (count is_close effects ≡ bit c.stopped)
    × (count is_exit_call effects ≡ bit (true && c.stopped))
run-new_client_example = run-new_client messages true (starts ∷ session)

run-starts_example : is_coherent (run messages (starts ∷ session) (new_client true)).1 ≡ true
run-starts_example = run-starts messages true session refl

abbrev transfers : List Transfer
transfers =
    queues (Outgoing.req_login 0 (b'a' ∷ [])) ∷ queues (Outgoing.req_create_room 0) ∷ finishes ∷ []

live : (new_client true).stopped ≡ false
unfolding new_client
live = refl

run-written_example :
    pop_front (new_client true).write_queue ++ sent transfers
    ≡ written (Transfers.run transfers (new_client true)).0
      ++ pop_front (Transfers.run transfers (new_client true)).1.write_queue
run-written_example = run-written transfers (new_client true) live

abbrev forty_two : Bytes
forty_two = b'4' ∷ b'2' ∷ []

-- Two joins, of which the first is not understood at once, and a logout.
abbrev texts : List Bytes
texts =
    (b'3' ∷ []) ∷ (b'x' ∷ []) ∷ forty_two ∷ (b'9' ∷ []) ∷ (b'3' ∷ []) ∷ forty_two ∷ (b'1' ∷ []) ∷ []

sent-type_all_example :
    (sent_by (type_all texts (state_init 3)).0 ≡ logins 3 texts)
    × (sent_by (type_all texts (state_login 3 false)).0
        ≡ numbered 3 (wishes login_menu Asking.a_choice texts))
    × (sent_by (type_all texts (state_in_room 3 PendingInput.command)).0
        ≡ numbered 3 (wishes room_menu Asking.a_choice texts))
sent-type_all_example = sent-type_all texts 3

read_room_id_lem_example : read_room_id forty_two ≡ (
    if not (is_empty forty_two) && (all_digits forty_two && ltb (decimal 0 forty_two) (2 ^ 32))
    then some (decimal 0 forty_two)
    else none)
read_room_id_lem_example = read_room_id_lem forty_two
