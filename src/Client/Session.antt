-- ===== src/Client/Session.antt =====
-- client_session.hpp and client_session.cpp: the connection of the client. The executor runs one
-- handler at a time; a handler returns what it makes happen outside, in order, and the session.
use rsp.Base.{
  ℕ, Bool, true, false, Option, none, some, List, [], ◌∷◌, ◌++◌, if◌then◌else◌, Bytes, is_empty,
}
use rsp.Wire.Interpreter.{Interpreter, Dispatch, Handled, handle_buffer, init as fresh_interpreter}
use rsp.Client.States.{
  State, exit, Context, Messages, Outgoing, Prompt, Action, sends, shows, prints, StateObject,
  create, on_command, Reaction, on_message,
}

pub record Client : Type 0 where
  pub context : Context
  pub interpreter : Interpreter
  pub state : Option StateObject
  pub write_queue : List Outgoing
  pub current_state : State
  pub exit_handler : Bool
  pub stopped : Bool

-- async_read_some, async_write of a frame, the close of the socket, the call of `exit_handler_`,
-- and what is shown to the user.
pub data Effect : Type 0 where
  reads : Effect
  writes : Outgoing → Effect
  closes : Effect
  exits : Effect
  prompts : Prompt → Effect
  shows_text : Bytes → Effect

abbrev pub Step : Type 0
Step = List Effect × Client

-- One handler, and another from where it ends.
abbrev pub then_do : Step → (Client → Step) → Step
then_do (es, c) f = let (fs, c') = f c in (es ++ fs, c')

abbrev pub is_none {ℓ} : {A : Type ℓ} → Option A → Bool
is_none none = true
is_none (some a) = false

-- client_session, set_exit_handler
unfoldable pub new_client : Bool → Client
new_client exit_handler = record {
  context = record { uid = []; room_id = 0 };
  interpreter = fresh_interpreter;
  state = none;
  write_queue = [];
  current_state = State.init;
  exit_handler = exit_handler;
  stopped = false;
}

unfoldable pub finish : Client → Step
finish c = if c.stopped then ([], c) else (
  closes ∷ (if c.exit_handler then exits ∷ [] else []),
  record c { stopped = true; current_state = exit },
)

-- write_next, for the queue that it reads.
unfoldable pub write_front : List Outgoing → List Effect
write_front [] = []
write_front (m ∷ ms) = writes m ∷ []

unfoldable pub write_next : Client → Step
unfolding write_front
write_next c = ((if c.stopped then [] else write_front c.write_queue), c)

unfoldable pub queue_write : Outgoing → Client → Step
unfolding write_next
queue_write m c =
    if c.stopped
    then ([], c)
    else (let queued = record c { write_queue = c.write_queue ++ m ∷ [] } in
        if is_empty c.write_queue then write_next queued else ([], queued))

-- What the actions of a state do.
unfoldable pub perform : List Action → Client → Step
unfolding queue_write
perform [] c = ([], c)
perform (sends m ∷ as') c = then_do (queue_write m c) (perform as')
perform (shows p ∷ as') c = then_do (prompts p ∷ [], c) (perform as')
perform (prints t ∷ as') c = then_do (shows_text t ∷ [], c) (perform as')

abbrev pub is_exit : State → Bool
is_exit exit = true
is_exit s = false

-- The new state is entered; an exit finishes the session.
unfoldable pub enter_state : State → Client → Step
unfolding create perform
enter_state next c =
    let (actions, object, ctx) = create next c.context in
    perform actions (record c { current_state = next; state = some object; context = ctx })

unfoldable pub transition_to : State → Client → Step
unfolding enter_state
transition_to next c =
    if c.stopped
    then ([], c)
    else if is_exit next
    then then_do (enter_state next c) finish
    else enter_state next c

unfoldable pub command_to : Bytes → Option StateObject → Client → Step
command_to text none c = ([], c)
command_to text (some o) c =
    let (actions, o') = on_command text o in perform actions (record c { state = some o' })

unfoldable pub handle_command : Bytes → Client → Step
unfolding command_to
handle_command text c = if c.stopped then ([], c) else command_to text c.state c

unfoldable pub stop : Client → Step
unfolding transition_to
stop c = if c.stopped then ([], c) else transition_to exit c

unfoldable pub read_next : Client → Step
read_next c = ((if c.stopped then [] else reads ∷ []), c)

unfoldable pub start : Client → Step
unfolding transition_to read_next
start c = then_do (transition_to State.init c) read_next

-- The transition that a reaction asks for.
unfoldable pub follow : Option State → Client → Step
unfolding transition_to
follow none c = ([], c)
follow (some next) c = transition_to next c

unfoldable pub react : Reaction → Client → Step
unfolding follow
react r c =
    then_do (perform r.actions (record c { state = some r.object; context = r.context }))
      (follow r.transition)

module _ (p : Messages) where
  unfoldable pub message_to : ℕ → Bytes → Option StateObject → Client → Step
  unfolding react
  message_to type payload none c = ([], c)
  message_to type payload (some o) c = react (on_message p type payload o c.context) c

  unfoldable pub dispatch : ℕ → Bytes → Client → Step
  unfolding message_to
  dispatch type payload c = if c.stopped then ([], c) else message_to type payload c.state c

  -- The calls that the interpreter makes, one by one.
  unfoldable pub dispatch_all : List Dispatch → Client → Step
  unfolding dispatch
  dispatch_all [] c = ([], c)
  dispatch_all (d ∷ ds) c = then_do (dispatch d.type d.payload c) (dispatch_all ds)

  -- The interpreter's loop has fuel for every buffer, so its `none` is never met.
  unfoldable pub received : Option Handled → Client → Step
  unfolding dispatch_all transition_to read_next
  received none c = ([], c)
  received (some h) c =
      then_do (dispatch_all h.dispatched (record c { interpreter = h.state }))
        (λ c'. if h.accepted then read_next c' else transition_to exit c')

  -- The handler of async_read_some: an error, or a number of bytes.
  unfoldable pub handle_read : Option (Bytes × ℕ) → Client → Step
  unfolding received
  handle_read none c = finish c
  handle_read (some (array, size)) c = received (handle_buffer c.interpreter array size) c

-- The handler of async_write; the front is there, since it is what was written.
unfoldable pub pop_front : List Outgoing → List Outgoing
pop_front [] = []
pop_front (m ∷ ms) = ms

unfoldable pub handle_write : Bool → Client → Step
unfolding transition_to pop_front
handle_write error c =
    if error
    then transition_to exit c
    else write_next (record c { write_queue = pop_front c.write_queue })
