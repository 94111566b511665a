-- ===== src/MessageType.antt =====
-- proto/common/message_type.proto: the numbers of the message types on the wire.
use rsp.Base.{ℕ}

abbrev pub ping : ℕ
ping = 0

abbrev pub pong : ℕ
pong = 1

abbrev pub req_login : ℕ
req_login = 2

abbrev pub res_login : ℕ
res_login = 3

abbrev pub req_logout : ℕ
req_logout = 4

abbrev pub res_logout : ℕ
res_logout = 5

abbrev pub req_create_room : ℕ
req_create_room = 6

abbrev pub res_create_room : ℕ
res_create_room = 7

abbrev pub req_join_room : ℕ
req_join_room = 8

abbrev pub res_join_room : ℕ
res_join_room = 9

abbrev pub fwd_room : ℕ
fwd_room = 10

abbrev pub fwd_client : ℕ
fwd_client = 12

abbrev pub ntf_leave_room : ℕ
ntf_leave_room = 23

abbrev pub req_leave_room : ℕ
req_leave_room = 24

abbrev pub res_leave_room : ℕ
res_leave_room = 25

abbrev pub user2room_req_create_room : ℕ
user2room_req_create_room = 14

abbrev pub user2room_res_create_room : ℕ
user2room_res_create_room = 15

abbrev pub user2room_req_join_room : ℕ
user2room_req_join_room = 16

abbrev pub user2room_res_join_room : ℕ
user2room_res_join_room = 17

abbrev pub user2room_fwd_room : ℕ
user2room_fwd_room = 18

abbrev pub user2room_fwd_client : ℕ
user2room_fwd_client = 20

abbrev pub user2room_ntf_leave_room : ℕ
user2room_ntf_leave_room = 22

abbrev pub user2room_req_leave_room : ℕ
user2room_req_leave_room = 26

abbrev pub user2room_res_leave_room : ℕ
user2room_res_leave_room = 27

abbrev pub user2room_cancel_request : ℕ
user2room_cancel_request = 28
