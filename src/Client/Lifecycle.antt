-- ===== src/Client/Lifecycle.antt =====
-- The client's life: its state and room agree, it is closed once, and after that it is silent.
use rsp.Base.{
  ℕ, ◌+◌, ◌≡◌, Bool, true, false, Option, none, some, List, [], ◌∷◌, ◌&&◌, if◌then◌else◌, Bytes,
  arith, bit, count, count-append, Option-cases, inl, inr,
}
use rsp.Wire.Interpreter.{Dispatch, Handled, handle_buffer}
use rsp.Client.States.{
  State, init, exit, Context, Messages, Outgoing, Action, sends, shows, prints, StateObject, create,
  on_command, Reaction, on_message,
}
use rsp.Client.Session.{
  Client, Effect, Step, then_do, new_client, finish, queue_write, perform, enter_state,
  transition_to, command_to, handle_command, stop, read_next, start, follow, react, dispatch,
  dispatch_all, received, handle_read, handle_write,
}

pub data Event : Type 0 where
  starts : Event
  commands : Bytes → Event
  stops : Event
  read : Option (Bytes × ℕ) → Event
  wrote : (error : Bool) → Event

module _ (p : Messages) where
  unfoldable pub step : Event → Client → Step
  unfolding start stop handle_command handle_read handle_write
  step starts c = start c
  step (commands text) c = handle_command text c
  step stops c = stop c
  step (read result) c = handle_read p result c
  step (wrote error) c = handle_write error c

  unfoldable pub run : List Event → Client → Step
  unfolding step
  run [] c = ([], c)
  run (e ∷ es) c = then_do (step e c) (run es)

abbrev pub is_close : Effect → Bool
is_close Effect.closes = true
is_close e = false

abbrev pub is_exit_call : Effect → Bool
is_exit_call Effect.exits = true
is_exit_call e = false

-- A read or a write of the socket.
abbrev pub is_transfer : Effect → Bool
is_transfer Effect.reads = true
is_transfer (Effect.writes m) = true
is_transfer e = false

-- What every handler keeps.
pub record Keeps (c : Client) (s : Step) : Type 0 where
  pub closed : count is_close s.0 + bit c.stopped ≡ bit s.1.stopped
  pub told :
      count is_exit_call s.0 + bit (c.exit_handler && c.stopped)
      ≡ bit (c.exit_handler && s.1.stopped)
  pub handler : s.1.exit_handler ≡ c.exit_handler
  pub silent : (if c.stopped then count is_transfer s.0 else 0) ≡ 0

pub finish-Keeps : (c : Client) → Keeps c (finish c)
unfolding finish
finish-Keeps c = ground arith

pub then_do-Keeps :
    (c : Client) (s : Step) (f : Client → Step)
    → Keeps c s
    → Keeps s.1 (f s.1)
    → Keeps c (then_do s f)
then_do-Keeps c (es, c') f k l = record {
  closed = omega (arith, k.closed, l.closed, count-append is_close es (f c').0);
  told = ground (arith, k.told, l.told, k.handler, count-append is_exit_call es (f c').0);
  handler = ground (arith, k.handler, l.handler);
  silent = ground (arith, k.silent, l.silent, k.closed, count-append is_transfer es (f c').0);
}

pub queue_write-Keeps : (m : Outgoing) (c : Client) → Keeps c (queue_write m c)
unfolding queue_write
queue_write-Keeps m c = ground arith

pub perform-Keeps : (as' : List Action) (c : Client) → Keeps c (perform as' c)
unfolding perform
perform-Keeps [] c = ground arith
perform-Keeps (sends m ∷ as') c =
    then_do-Keeps c (queue_write m c) (perform as') (queue_write-Keeps m c)
      (perform-Keeps as' (queue_write m c).1)
perform-Keeps (shows q ∷ as') c =
    then_do-Keeps c (Effect.prompts q ∷ [], c) (perform as') (ground arith) (perform-Keeps as' c)
perform-Keeps (prints t ∷ as') c =
    then_do-Keeps c (Effect.shows_text t ∷ [], c) (perform as') (ground arith) (perform-Keeps as' c)

-- A state object changes to one of its kind, and the session keeps what it promises.
pub change_object-Keeps :
    (o : Option StateObject) (ctx : Context) (as' : List Action) (c : Client)
    → Keeps c (perform as' (record c { state = o; context = ctx }))
change_object-Keeps o ctx as' c =
    let k = perform-Keeps as' (record c { state = o; context = ctx }) in
    record { closed = k.closed; told = k.told; handler = k.handler; silent = k.silent }

pub enter_state-Keeps : (next : State) (c : Client) → Keeps c (enter_state next c)
unfolding enter_state
enter_state-Keeps next c =
    let (actions, object, ctx) = create next c.context in
    let k =
      perform-Keeps actions
        (record c { current_state = next; state = some object; context = ctx }) in
    record { closed = k.closed; told = k.told; handler = k.handler; silent = k.silent }

pub transition_to-Keeps : (next : State) (c : Client) → Keeps c (transition_to next c)
unfolding transition_to
transition_to-Keeps next c =
    let enter = enter_state-Keeps next c in
    let leave =
      then_do-Keeps c (enter_state next c) finish enter (finish-Keeps (enter_state next c).1) in
    ground (arith, enter, leave)

pub command_to-Keeps :
    (text : Bytes) (o : Option StateObject) (c : Client) → Keeps c (command_to text o c)
unfolding command_to
command_to-Keeps text none c = ground arith
command_to-Keeps text (some o) c =
    change_object-Keeps (some (on_command text o).1) c.context (on_command text o).0 c

pub follow-Keeps : (next : Option State) (c : Client) → Keeps c (follow next c)
unfolding follow
follow-Keeps none c = ground arith
follow-Keeps (some next) c = transition_to-Keeps next c

pub react-Keeps : (r : Reaction) (c : Client) → Keeps c (react r c)
unfolding react
react-Keeps r c =
    let acted = perform r.actions (record c { state = some r.object; context = r.context }) in
    then_do-Keeps c acted (follow r.transition)
      (change_object-Keeps (some r.object) r.context r.actions c)
      (follow-Keeps r.transition acted.1)

pub read_next-Keeps : (c : Client) → Keeps c (read_next c)
unfolding read_next
read_next-Keeps c = ground arith

module _ (p : Messages) where
  pub dispatch-Keeps :
      (type : ℕ) (payload : Bytes) (c : Client) → Keeps c (dispatch p type payload c)
  unfolding dispatch
  dispatch-Keeps type payload c = elim (Option-cases c.state) [
    | inl e ↦ ground arith
    | inr (o, e) ↦ ground (arith, react-Keeps (on_message p type payload o c.context) c)
  ]

  pub dispatch_all-Keeps : (ds : List Dispatch) (c : Client) → Keeps c (dispatch_all p ds c)
  unfolding dispatch_all
  dispatch_all-Keeps [] c = ground arith
  dispatch_all-Keeps (d ∷ ds) c =
      then_do-Keeps c (dispatch p d.type d.payload c) (dispatch_all p ds)
        (dispatch-Keeps d.type d.payload c)
        (dispatch_all-Keeps ds (dispatch p d.type d.payload c).1)

  pub received-Keeps : (h : Option Handled) (c : Client) → Keeps c (received p h c)
  unfolding received
  received-Keeps none c = ground arith
  received-Keeps (some h) c =
      let d = dispatch_all p h.dispatched (record c { interpreter = h.state }) in
      let k = dispatch_all-Keeps h.dispatched (record c { interpreter = h.state }) in
      then_do-Keeps c d (λ c'. if h.accepted then read_next c' else transition_to exit c')
        (record { closed = k.closed; told = k.told; handler = k.handler; silent = k.silent })
        (ground (arith, read_next-Keeps d.1, transition_to-Keeps exit d.1))

  pub step-Keeps : (e : Event) (c : Client) → Keeps c (step p e c)
  unfolding step
  step-Keeps starts c =
      then_do-Keeps c (transition_to init c) read_next (transition_to-Keeps init c)
        (read_next-Keeps (transition_to init c).1)
  step-Keeps (commands text) c = ground (arith, command_to-Keeps text c.state c)
  step-Keeps stops c = ground (arith, transition_to-Keeps exit c)
  step-Keeps (read none) c = finish-Keeps c
  step-Keeps (read (some (array, size))) c =
      received-Keeps (handle_buffer c.interpreter array size) c
  step-Keeps (wrote error) c = ground (arith, transition_to-Keeps exit c)

  pub run-Keeps : (es : List Event) (c : Client) → Keeps c (run p es c)
  unfolding run
  run-Keeps [] c = ground arith
  run-Keeps (e ∷ es) c =
      then_do-Keeps c (step p e c) (run p es) (step-Keeps e c) (run-Keeps es (step p e c).1)

  -- Whatever the user types, the server sends and the network does, the socket is closed and the
  -- exit handler, if there is one, is called once if the client has stopped and never before.
  pub run-new_client :
      (handler : Bool) (es : List Event)
      → let (effects, c) = run p es (new_client handler) in
        (count is_close effects ≡ bit c.stopped)
        × (count is_exit_call effects ≡ bit (handler && c.stopped))
  unfolding new_client
  run-new_client handler es =
      let k = run-Keeps es (new_client handler) in (omega (arith, k.closed), ground (arith, k.told))

  -- A client that has stopped reads nothing, writes nothing and stays stopped, whatever comes.
  pub run-stopped :
      (c : Client) (es : List Event)
      → c.stopped ≡ true
      → (count is_transfer (run p es c).0 ≡ 0) × ((run p es c).1.stopped ≡ true)
  run-stopped c es h =
      let k = run-Keeps es c in (ground (arith, k.silent), ground (arith, k.closed))
