-- ===== src/Dispatcher/Registry.antt =====
-- A dispatch after registrations.
use rsp.Base.{ℕ, ◌≡◌, Option, ◌==◌, if◌then◌else◌, Bytes, nat_key, ==_iff, arith}
use rsp.Base.Map.{insert, find-insert, find-erase}
use rsp.Dispatcher.{
  MessageDispatcher, handles, fails, register_handler, register_unknown_message_handler,
  unregister_handler, dispatch,
}

module _ {H : Type 0} where
  -- A registered handler gets the messages of its type, whatever was registered for it before, and
  -- those of no other type; once it is unregistered, the messages of the type go to the handler for
  -- unknown messages, whoever registered it last.
  pub dispatch-register_handler :
      (type other : ℕ) (f g : H) (buffer : Bytes) (link : Option ℕ) (d : MessageDispatcher H)
      → (dispatch other buffer link (register_handler type f d)
          ≡ (if other == type then handles f buffer link else dispatch other buffer link d))
        × (dispatch other buffer link (
              register_unknown_message_handler g
                (unregister_handler type (register_handler type f d)))
            ≡ (if other == type
                then fails g link
                else dispatch other buffer link (register_unknown_message_handler g d)))
  unfolding dispatch register_handler register_unknown_message_handler unregister_handler
  dispatch-register_handler type other f g buffer link d = (
    ground (arith, find-insert other type f d.handlers, ==_iff other type),
    ground (
      arith,
      find-insert other type f d.handlers,
      find-erase other type (insert type f d.handlers),
      ==_iff other type,
    ),
  )
