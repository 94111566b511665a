-- ===== src/Contents/Kickout.antt =====
-- The client's kickout command, as the contents read it.
use rsp.Base.{
  ℕ, ◌≡◌, refl, false, ◌&&◌, Option, none, some, List, [], ◌∷◌, ◌++◌, ◌==◌, if◌then◌else◌, Bytes,
  bytes_key, is_empty, arith, append_assoc, append-nil,
}
use rsp.Base.Keys.{bytes_beq}
use rsp.Room.Instance.{room_owner}
use rsp.Contents.{
  send_to_user, kick_out_user, tokens, kickout, command_of, on_recv_message, echo_text,
}
use rsp.Client.States.{kickout_text}

-- The characters up to the first colon.
abbrev pub before_colon : Bytes → Bytes
before_colon [] = []
before_colon (c ∷ s) = let rest = before_colon s in if c == b':' then [] else c ∷ rest

abbrev first_token : List Bytes → Option Bytes
first_token [] = none
first_token (t ∷ ts) = some t

grown : (token : Bytes) (c : ℕ) → is_empty (token ++ c ∷ []) ≡ false
grown [] c = refl
grown (b ∷ token) c = refl

command-tokens : (ts : List Bytes) → command_of (kickout ∷ ts) ≡ first_token ts
unfolding command_of bytes_beq
command-tokens [] = refl
command-tokens (t ∷ ts) = refl

first_token-tokens :
    (token s : Bytes)
    → first_token (tokens token s)
      ≡ (if is_empty token && is_empty s then none else some (token ++ before_colon s))
unfolding tokens
first_token-tokens token [] = ground (arith, append-nil token)
first_token-tokens token (c ∷ s) = ground (
  arith,
  append-nil token,
  first_token-tokens (token ++ c ∷ []) s,
  append_assoc token (c ∷ []) (before_colon s),
  grown token c,
)

-- What the client sends for a kickout of a name that is not empty reaches the contents as a kick of
-- the name up to its first colon, by whomever it is sent; and with no name it is echoed as a text.
pub on_recv_message-kickout_text :
    (from name : Bytes) (users : List Bytes)
    → on_recv_message from (kickout_text name) users ≡ (
        if is_empty name
        then send_to_user users (echo_text from (kickout_text name)) ∷ []
        else kick_out_user (before_colon name) room_owner ∷ [])
unfolding on_recv_message
on_recv_message-kickout_text from name users =
    rw (command-tokens (tokens [] name), first_token-tokens [] name) (ground arith)
