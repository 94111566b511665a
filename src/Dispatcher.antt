-- ===== src/Dispatcher.antt =====
-- message_dispatcher.hpp (rsp-libs/include/rsplib/message): handlers by message type, of which a
-- process has one instance. A handler is a value of an abstract type; `none` is an empty
-- std::function, and a link is the address of a session, or `none` for nullptr.
pub mod Registry
pub mod UserServer
use rsp.Base.{ℕ, ◌≡◌, Option, none, some, List, [], ◌∷◌, if◌then◌else◌, Bytes, nat_key}
use rsp.Base.Map.{Map, find, insert, erase}

pub record MessageDispatcher (H : Type 0) : Type 0 where
  pub handlers : Map ℕ H
  pub fail_handler : Option H

-- The call that a dispatch makes: a handler's, with the payload; the one for unknown messages; or
-- std::bad_function_call.
pub data Call (H : Type 0) : Type 0 where
  handles : H → Bytes → Option ℕ → Call H
  fails : H → Option ℕ → Call H
  bad_function_call : Call H

module _ {H : Type 0} where
  abbrev pub new_dispatcher : MessageDispatcher H
  new_dispatcher = record { handlers = []; fail_handler = none }

  unfoldable pub register_handler : ℕ → H → MessageDispatcher H → MessageDispatcher H
  register_handler type f d = record d { handlers = insert type f d.handlers }

  unfoldable pub register_unknown_message_handler : H → MessageDispatcher H → MessageDispatcher H
  register_unknown_message_handler f d = record d { fail_handler = some f }

  unfoldable pub unregister_handler : ℕ → MessageDispatcher H → MessageDispatcher H
  unregister_handler type d = record d { handlers = erase type d.handlers }

  unfoldable pub dispatch : ℕ → Bytes → Option ℕ → MessageDispatcher H → Call H
  dispatch type buffer link d = elim (find type d.handlers) [
    | some f ↦ handles f buffer link
    | none ↦ elim d.fail_handler [ none ↦ bad_function_call | some f ↦ fails f link ]
  ]
