-- ===== src/Contents.antt =====
-- contents.cpp and contents.hpp (rsp-svr/room_contents): the rules of a room. A callback returns its
-- calls of the room's interface; `users` is what `api_->users()` returns.
pub mod Kickout
use rsp.Base.{
  ℕ, Bool, true, false, Option, none, some, List, [], ◌∷◌, ◌++◌, ◌==◌, if◌then◌else◌, Bytes,
  bytes_key, is_empty,
}
use rsp.Room.Instance.{KickoutReason, room_owner}

pub data ApiCall : Type 0 where
  send_to_user : List Bytes → Bytes → ApiCall
  kick_out_user : Bytes → KickoutReason → ApiCall

-- The loop of std::getline over the message: `token` is what has been read since the last
-- delimiter. A read that finds no character before the end makes no token.
unfoldable pub tokens : Bytes → Bytes → List Bytes
tokens token [] = if is_empty token then [] else token ∷ []
tokens token (c ∷ s) =
    let rest = tokens (if c == b':' then [] else token ++ c ∷ []) s in
    if c == b':' then token ∷ rest else rest

abbrev pub kickout : Bytes
kickout = b'k' ∷ b'i' ∷ b'c' ∷ b'k' ∷ b'o' ∷ b'u' ∷ b't' ∷ []

-- "({0}):{1}"
abbrev pub echo_text : Bytes → Bytes → Bytes
echo_text from msg = b'(' ∷ from ++ b')' ∷ b':' ∷ msg

-- "({0}) has entered" and "({0}) has exited"
abbrev pub entered_text : Bytes → Bytes
entered_text uid =
    b'(' ∷ uid
    ++ b')' ∷ b' ' ∷ b'h' ∷ b'a' ∷ b's' ∷ b' ' ∷ b'e' ∷ b'n' ∷ b't' ∷ b'e' ∷ b'r' ∷ b'e' ∷ b'd' ∷ []

abbrev pub exited_text : Bytes → Bytes
exited_text uid =
    b'(' ∷ uid
    ++ b')' ∷ b' ' ∷ b'h' ∷ b'a' ∷ b's' ∷ b' ' ∷ b'e' ∷ b'x' ∷ b'i' ∷ b't' ∷ b'e' ∷ b'd' ∷ []

unfoldable pub on_user_enter : Bytes → List Bytes → List ApiCall
on_user_enter uid users = send_to_user users (entered_text uid) ∷ []

unfoldable pub on_user_exit : Bytes → List Bytes → List ApiCall
on_user_exit uid users = send_to_user users (exited_text uid) ∷ []

-- The command that the tokens hold, if they hold one.
unfoldable pub command_of : List Bytes → Option Bytes
command_of (first ∷ second ∷ more) = if bytes_key.beq kickout first then some second else none
command_of ts = none

unfoldable pub on_recv_message : Bytes → Bytes → List Bytes → List ApiCall
unfolding tokens command_of
on_recv_message from msg users = elim (command_of (tokens [] msg)) [
  | some uid ↦ kick_out_user uid room_owner ∷ []
  | none ↦ send_to_user users (echo_text from msg) ∷ []
]
