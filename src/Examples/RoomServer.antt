-- ===== src/Examples/RoomServer.antt =====
-- A request to join a room, on its way through both servers, and a frame that breaks off.
use rsp.Base.{
  ℕ, ◌≡◌, ◌≢◌, refl, Bool, leb, true, false, none, some, [], ◌∷◌, ◌++◌, Bytes, arith, nat_key,
}
use rsp.Wire.Helper.{mget_be}
use rsp.Base.Map.{find, insert, contains}
use rsp.PendingRequests.{init as no_requests}
use rsp.Wire.Serializer.{frame, destruct_buffer, complete as is_complete}
use rsp.QueuedRequests.{init, admit, prune, prune_loop}
use rsp.Dispatcher.{dispatch}
use rsp.Dispatcher.UserServer.{user_server, deliver, null_session}
use rsp.RoomChannel.{
  RoomChannel, request, cancel_request_of, calls_handler, new_room_channel, send_request,
  cancel_request as cancel_sent, on_response,
}
use rsp.UserChannel.{
  UserChannel, new_user_channel, receive, handle_request, is_active, complete, send_to,
}
use rsp.RoomServer.{
  Inbound, ping, req_create_room, req_join_room, req_leave_room, fwd_room, cancels, Fields,
  responds, handles_request, receive_buffer, deserialized,
}
use rsp.RoomServer.Frames.{type_of, handler_of, Writes, receive_buffer-broken}
use rsp.RoomServer.Asked.{Ask, asks_join}
use rsp.RoomServer.Trip.{answered-cancelled}

abbrev first : Bytes → ℕ
first [] = 0
first (x ∷ s) = x

abbrev behind : Bytes → Bytes
behind [] = []
behind (x ∷ s) = s

abbrev fields : Fields Bytes
fields = record { request_id = λ h. first; body = λ h. behind }

abbrev written : Inbound Bytes → Bytes
written ping = []
written (req_create_room id b) = id ∷ b
written (req_join_room id b) = id ∷ b
written (req_leave_room id b) = id ∷ b
written (fwd_room b) = 0 ∷ b
written (cancels id) = id ∷ []

written-parsed : (m : Inbound Bytes) → deserialized fields (handler_of m) (written m) ≡ some m
written-parsed ping = refl
written-parsed (req_create_room id b) = refl
written-parsed (req_join_room id b) = refl
written-parsed (req_leave_room id b) = refl
written-parsed (fwd_room b) = refl
written-parsed (cancels id) = refl

abbrev writes : Writes fields
writes = record { serialize_as_string = written; parse_serialize = written-parsed }

abbrev asker : RoomChannel (Ask Bytes) ℕ ℕ
asker = new_room_channel

abbrev server_side : UserChannel ℕ
server_side = new_user_channel

abbrev route : Bytes
route = b'u' ∷ []

admitted : (handle_request false 1 100 (receive route server_side)).0 ≡ some 0
unfolding handle_request receive admit prune prune_loop find insert init
admitted = refl

fresh : contains 1 asker.requests.requests ≡ false
unfolding find no_requests
fresh = refl

answered-cancelled_example :
    let asked = (send_request (asks_join (7 ∷ [])) 20 30 100 asker).1 in
    let cancelled = cancel_sent 1 asked in
    let buffer = λ (x : Inbound Bytes). frame (type_of x) (written x) in
    let (handling, server) =
      receive_buffer fields 9 false route (buffer (req_join_room 1 (7 ∷ []))) 100 server_side in
    let told = (receive_buffer fields 9 false route (buffer (cancels 1)) 101 server).1 in
    ((asked.channel.outgoing ≡ asker.channel.outgoing ++ request (asks_join (7 ∷ [])) 1 ∷ [])
      × (handling ≡ handles_request (some 0) (req_join_room 1 (7 ∷ [])))
      × ((is_active 0 server).0 ≡ true)
      × ((complete (route, 1) 0 8 102 (is_active 0 server).1).channel.outgoing
          ≡ server_side.channel.outgoing ++ (route, 8) ∷ [])
      × ((on_response {R = ℕ} 1 40 103 asked).0 ≡ calls_handler 20 40 ∷ []))
    × ((cancelled.channel.outgoing ≡ asked.channel.outgoing ++ cancel_request_of 1 ∷ [])
        × ((is_active 0 told).0 ≡ false)
        × ((complete (route, 1) 0 8 102 (is_active 0 told).1).channel.outgoing
            ≡ server_side.channel.outgoing)
        × ((on_response {R = ℕ} 1 40 103 cancelled).0 ≡ []))
answered-cancelled_example =
    answered-cancelled fields writes 9 route (asks_join (7 ∷ [])) 20 30 asker server_side 8 40 100
      100 101 102 103 0 (omega arith) (omega arith) fresh admitted (omega arith)

abbrev cut_off : Bytes
cut_off = 0 ∷ 0 ∷ 0 ∷ []

waits : (destruct_buffer cut_off).status ≢ is_complete
unfolding destruct_buffer mget_be
waits = λ e. cc

-- A ping has no fields, and a pong neither.
abbrev parses : ℕ → Bytes → Bool
parses type buffer = leb type 1

receive_buffer-broken_example :
    let meta = destruct_buffer cut_off in
    (receive_buffer fields 9 false route cut_off 100 server_side
      ≡ (responds, send_to route 9 (receive route server_side)))
    × (deliver parses (dispatch meta.type meta.payload none user_server) ≡ null_session)
receive_buffer-broken_example =
    receive_buffer-broken fields 9 false parses route cut_off 100 server_side waits refl
