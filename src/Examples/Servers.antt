-- ===== src/Examples/Servers.antt =====
-- The dispatcher, the contents, a room and the room channel.
use rsp.Base.{
  ◌≡◌, ◌≤◌, ◌+◌, count, length, arith, Bool, not, true, none, some, List, [], ◌∷◌, if◌then◌else◌,
  bytes_key, is_empty, ℕ, Bytes,
}
use rsp.Base.Map.{IsSorted}
use rsp.MessageType.{user2room_res_join_room}
use rsp.Dispatcher.{dispatch}
use rsp.Dispatcher.UserServer.{deliver, expected, user_server, deliver-user_server}
use rsp.Client.States.{kickout_text}
use rsp.Room.Instance.{KickoutReason}
use rsp.Contents.{send_to_user, kick_out_user, echo_text, on_recv_message}
use rsp.Contents.Kickout.{before_colon, on_recv_message-kickout_text}
use rsp.Room.Instance.{
  User, SenderType, users_of, send_to_all_user, make_contents, new_room,
  send_to_user as send_in_room,
}
use rsp.Room.Balance.{joins, run as run_room}
use rsp.Room.Messages.{forwards, send_to_user-users_of}
use rsp.RoomChannel.{new_room_channel}
use rsp.RoomChannel.Requests.{Event, requests, cancels, responses, expires, notifies, run}
use rsp.RoomChannel.Leaves.{
  is_request, is_cancellation, is_answer, is_timeout, cancels_under, asks_under,
}
use rsp.RoomChannel.Balance.{run-new_room_channel}

-- A payload parses unless it is empty.
abbrev parses : ℕ → Bytes → Bool
parses type buffer = not (is_empty buffer)

deliver-user_server_example :
    (deliver parses (dispatch user2room_res_join_room (1 ∷ []) (some 5) user_server)
      ≡ expected true user2room_res_join_room (1 ∷ []) (some 5))
    × (deliver parses (dispatch user2room_res_join_room (1 ∷ []) none user_server)
        ≡ expected true user2room_res_join_room (1 ∷ []) none)
deliver-user_server_example = deliver-user_server parses user2room_res_join_room 5 (1 ∷ [])

abbrev name : Bytes
name = 2 ∷ b':' ∷ 3 ∷ []

on_recv_message-kickout_text_example :
    on_recv_message (1 ∷ []) (kickout_text name) ((1 ∷ []) ∷ []) ≡ (
      if is_empty name
      then send_to_user ((1 ∷ []) ∷ []) (echo_text (1 ∷ []) (kickout_text name)) ∷ []
      else kick_out_user (before_colon name) KickoutReason.room_owner ∷ [])
on_recv_message-kickout_text_example = on_recv_message-kickout_text (1 ∷ []) name ((1 ∷ []) ∷ [])

abbrev owner : User
owner = record { uid = 1 ∷ []; route = 11 ∷ [] }

send_to_user-users_of_example :
    let r = (run_room (joins true (2 ∷ []) (12 ∷ []) ∷ []) (make_contents (new_room 4 owner))).1 in
    (send_in_room (SenderType.content) (users_of r) (9 ∷ []) r
      ≡ (true, forwards SenderType.content (9 ∷ []) r.users))
    × (send_to_all_user SenderType.content (9 ∷ []) r
        ≡ forwards SenderType.content (9 ∷ []) r.users)
    × IsSorted r.users
send_to_user-users_of_example =
    send_to_user-users_of 4 owner (joins true (2 ∷ []) (12 ∷ []) ∷ []) SenderType.content (9 ∷ [])

-- Requests, handlers, timeouts and responses are numbers.
abbrev traffic : List (Event ℕ ℕ ℕ ℕ)
traffic =
    requests 10 20 30 0
    ∷ requests 11 21 31 2
    ∷ responses 2 7 3
    ∷ expires 5
    ∷ notifies 12
    ∷ cancels 1
    ∷ []

run-new_room_channel_example :
    let (effects, c) = run traffic new_room_channel in
    let out = c.channel.outgoing in
    (count is_request out
      ≡ count is_answer effects + count is_cancellation out + length c.requests.requests)
    × (count is_timeout effects ≤ count is_cancellation out)
    × (count (cancels_under 1) out ≤ count (asks_under 1) out)
run-new_room_channel_example = run-new_room_channel traffic 1 (omega arith)
