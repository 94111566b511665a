-- ===== src/Client/Transitions.antt =====
-- The state, its object and the room over a transition.
use rsp.Base.{
  ℕ, ◌≡◌, refl, Bool, true, false, Option, none, some, List, [], ◌∷◌, not, ◌&&◌, ◌||◌, ◌==◌, Bytes,
  arith, Bool-cases, inl, inr,
}
use rsp.Client.States.{
  State, init, logged_in, in_room, exit, Context, Messages, Outgoing, Action, sends, shows, prints,
  StateObject, state_init, state_login, state_in_room, state_exit, kind, on_command, Reaction,
  on_message, command, message, kickout_user, handle_res_logout, handle_res_room, handle_fwd_client,
  handle_ntf_leave_room, handle_res_leave_room, handle_res_login,
}
use rsp.Client.Session.{
  Client, Step, finish, queue_write, perform, is_exit, enter_state, transition_to, command_to,
  follow, react,
}
use rsp.Client.Lifecycle.{Keeps, react-Keeps}

abbrev pub same : State → State → Bool
same init init = true
same logged_in logged_in = true
same in_room in_room = true
same exit exit = true
same s t = false

-- The state object is that of the state; without one the session has not been started.
abbrev pub matches : Option StateObject → State → Bool
matches none s = same s init
matches (some o) s = same (kind o) s

-- Until it stops, a client is not in the exit state, its object is that of its state, and it
-- has a room in the room state only.
abbrev pub is_coherent : Client → Bool
is_coherent c =
    c.stopped
    || (not (is_exit c.current_state)
        && (matches c.state c.current_state
            && (same c.current_state in_room || c.context.room_id == 0)))

-- The actions change the write queue only.
abbrev SameBut : Client → Client → Type 0
SameBut c c' =
    (c'.stopped ≡ c.stopped)
    × (c'.current_state ≡ c.current_state)
    × (c'.state ≡ c.state)
    × (c'.context ≡ c.context)

queue_write-same : (m : Outgoing) (c : Client) → SameBut c (queue_write m c).1
unfolding queue_write
queue_write-same m c = ground arith

perform-same : (as' : List Action) (c : Client) → SameBut c (perform as' c).1
unfolding perform
perform-same [] c = ground arith
perform-same (sends m ∷ as') c =
    ground (arith, queue_write-same m c, perform-same as' (queue_write m c).1)
perform-same (shows q ∷ as') c = perform-same as' c
perform-same (prints t ∷ as') c = perform-same as' c

perform-coherent :
    (as' : List Action) (c : Client) → is_coherent c ≡ true → is_coherent (perform as' c).1 ≡ true
perform-coherent as' c h = let same_but = perform-same as' c in ground (arith, same_but, h)

-- Where a transition may lead: to the exit, into a room, or elsewhere without a room.
abbrev allows : Option State → Context → State → Bool
allows none ctx s = same s in_room || ctx.room_id == 0
allows (some next) ctx s = is_exit next || (same next in_room || ctx.room_id == 0)

enter_state-coherent :
    (next : State) (c : Client)
    → c.stopped ≡ false
    → is_exit next ≡ false
    → allows (some next) c.context in_room ≡ true
    → is_coherent (enter_state next c).1 ≡ true
unfolding enter_state
enter_state-coherent init c live h a = ground (arith, a)
enter_state-coherent logged_in c live h a = ground (arith, a)
enter_state-coherent in_room c live h a = ground (arith, a)
enter_state-coherent exit c live h a = cc

pub finish-stopped : (c : Client) → (finish c).1.stopped ≡ true
unfolding finish
finish-stopped c = ground arith

pub transition_to-coherent :
    (next : State) (c : Client)
    → allows (some next) c.context in_room ≡ true
    → is_coherent (transition_to next c).1 ≡ true
unfolding transition_to
transition_to-coherent next c a =
    ground (arith, enter_state-coherent next c, finish-stopped (enter_state next c).1)

-- A reaction of a state to what it hears.
abbrev Sound : StateObject → Reaction → Type 0
Sound o r = (kind r.object ≡ kind o) × (allows r.transition r.context (kind o) ≡ true)

module _ (p : Messages) where
  pub on_message-Sound :
      (type : ℕ) (payload : Bytes) (o : StateObject) (ctx : Context)
      → allows none ctx (kind o) ≡ true
      → Sound o (on_message p type payload o ctx)
  unfolding on_message handle_res_logout handle_res_room handle_fwd_client handle_ntf_leave_room
      handle_res_leave_room handle_res_login
  on_message-Sound type payload (state_init n) ctx h = ground arith
  on_message-Sound type payload (state_login n awaiting) ctx h = ground arith
  on_message-Sound type payload (state_in_room n input) ctx h = ground arith
  on_message-Sound type payload (state_exit n) ctx h = ground arith

kind-on_command : (text : Bytes) (o : StateObject) → kind (on_command text o).1 ≡ kind o
unfolding on_command
kind-on_command text (state_init n) = refl
kind-on_command text (state_login n true) = ground arith
kind-on_command text (state_login n false) = ground arith
kind-on_command text (state_in_room n command) = ground arith
kind-on_command text (state_in_room n message) = refl
kind-on_command text (state_in_room n kickout_user) = refl
kind-on_command text (state_exit n) = refl

pub command_to-coherent :
    (text : Bytes) (o : StateObject) (c : Client)
    → c.state ≡ some o
    → is_coherent c ≡ true
    → is_coherent (command_to text (some o) c).1 ≡ true
unfolding command_to
command_to-coherent text o c e h =
    perform-coherent (on_command text o).0 (record c { state = some (on_command text o).1 })
      (ground (arith, kind-on_command text o))

pub same_eq : (s t : State) → same s t ≡ true → s ≡ t
same_eq init t h = ground arith
same_eq logged_in t h = ground arith
same_eq in_room t h = ground arith
same_eq exit t h = ground arith

follow-coherent :
    (t : Option State) (c : Client)
    → allows t c.context c.current_state ≡ true
    → (not (is_exit c.current_state) && matches c.state c.current_state) ≡ true
    → is_coherent (follow t c).1 ≡ true
unfolding follow
follow-coherent none c a m = ground (arith, a, m)
follow-coherent (some next) c a m = transition_to-coherent next c a

stopped-coherent : (c : Client) (s : Step) → Keeps c s → c.stopped ≡ true → is_coherent s.1 ≡ true
stopped-coherent c s k h = ground (arith, k.closed)

pub react-coherent :
    (o : StateObject) (r : Reaction) (c : Client)
    → c.state ≡ some o
    → Sound o r
    → is_coherent c ≡ true
    → is_coherent (react r c).1 ≡ true
unfolding react follow
react-coherent o r c e s h = elim (Bool-cases c.stopped) [
  | inl gone ↦ stopped-coherent c (react r c) (react-Keeps r c) gone
  | inr live ↦
      let changed : Client = record c { state = some r.object; context = r.context } in
      let same_but = perform-same r.actions changed in
      let m : matches (some o) c.current_state ≡ true = ground (arith, e, h, live) in
      let now = same_eq (kind o) c.current_state m in
      follow-coherent r.transition (perform r.actions changed).1
        (rw (same_but.3, same_but.1, ← now) s.1)
        (rw (same_but.1, same_but.2) (ground (arith, now, s.0, h, live, m)))
]
