-- ===== src/Client/Coherence.antt =====
-- The state, its object and the room of the client agree.
use rsp.Base.{
  ℕ, ◌≡◌, refl, Bool, true, false, Option, none, some, List, [], ◌∷◌, ◌&&◌, Bytes, arith,
  Option-cases, Bool-cases, inl, inr,
}
use rsp.Wire.Interpreter.{Dispatch, Handled, handle_buffer}
use rsp.Client.States.{init, exit, Messages, kind, on_message}
use rsp.Client.Session.{
  Client, new_client, write_next, read_next, start, dispatch, dispatch_all, received,
}
use rsp.Client.Lifecycle.{Event, starts, commands, stops, read, wrote, step, run}
use rsp.Client.Transitions.{
  command_to-coherent, finish-stopped, is_coherent, matches, on_message-Sound, react-coherent,
  same_eq, transition_to-coherent,
}

-- A stopped or unstarted client, or one whose object hears of something.
module _ (p : Messages) where
  dispatch-coherent :
      (type : ℕ) (payload : Bytes) (c : Client)
      → is_coherent c ≡ true
      → is_coherent (dispatch p type payload c).1 ≡ true
  unfolding dispatch
  dispatch-coherent type payload c h = elim (Option-cases c.state) [
    | inl e ↦ ground arith
    | inr (o, e) ↦ elim (Bool-cases c.stopped) [
      | inl gone ↦ ground arith
      | inr live ↦
          let m : matches (some o) c.current_state ≡ true = ground (arith, e, h, live) in
          let sound =
            on_message-Sound p type payload o c.context
              (ground (arith, same_eq (kind o) c.current_state m, h, live)) in
          ground (arith, react-coherent o (on_message p type payload o c.context) c e sound h)
    ]
  ]

  dispatch_all-coherent :
      (ds : List Dispatch) (c : Client)
      → is_coherent c ≡ true
      → is_coherent (dispatch_all p ds c).1 ≡ true
  unfolding dispatch_all
  dispatch_all-coherent [] c h = h
  dispatch_all-coherent (d ∷ ds) c h =
      dispatch_all-coherent ds (dispatch p d.type d.payload c).1
        (dispatch-coherent d.type d.payload c h)

  received-coherent :
      (h : Option Handled) (c : Client)
      → is_coherent c ≡ true
      → is_coherent (received p h c).1 ≡ true
  unfolding received read_next
  received-coherent none c v = v
  received-coherent (some h) c v =
      let d = (dispatch_all p h.dispatched (record c { interpreter = h.state })).1 in
      let kept = dispatch_all-coherent h.dispatched (record c { interpreter = h.state }) v in
      ground (arith, kept, transition_to-coherent exit d refl)

  -- `start` is called once, on a new client.
  abbrev pub later : Event → Bool
  later starts = false
  later e = true

  step-coherent :
      (e : Event) (c : Client)
      → later e ≡ true
      → is_coherent c ≡ true
      → is_coherent (step p e c).1 ≡ true
  unfolding step write_next
  step-coherent starts c l h = cc
  step-coherent (commands text) c l h = elim (Option-cases c.state) [
    | inl e ↦ ground arith
    | inr (o, e) ↦ ground (arith, command_to-coherent text o c e h)
  ]
  step-coherent stops c l h = ground (arith, transition_to-coherent exit c refl)
  step-coherent (read none) c l h = ground (arith, finish-stopped c)
  step-coherent (read (some (array, size))) c l h =
      received-coherent (handle_buffer c.interpreter array size) c h
  step-coherent (wrote error) c l h = ground (arith, transition_to-coherent exit c refl)

  abbrev pub all_later : List Event → Bool
  all_later [] = true
  all_later (e ∷ es) = later e && all_later es

  run-coherent :
      (es : List Event) (c : Client)
      → all_later es ≡ true
      → is_coherent c ≡ true
      → is_coherent (run p es c).1 ≡ true
  unfolding run
  run-coherent [] c l h = h
  run-coherent (e ∷ es) c l h =
      run-coherent es (step p e c).1 (ground (arith, l)) (step-coherent e c (ground (arith, l)) h)

  started-coherent : (handler : Bool) → is_coherent (start (new_client handler)).1 ≡ true
  unfolding start new_client read_next
  started-coherent handler = transition_to-coherent init (new_client handler) refl

  -- A client that is started once, and then hears anything from the user, the server and the
  -- network, is coherent: until it stops it is not in the exit state, its state object is that of
  -- its state, and it has a room id other than 0 in the room state only.
  pub run-starts :
      (handler : Bool) (es : List Event)
      → all_later es ≡ true
      → is_coherent (run p (starts ∷ es) (new_client handler)).1 ≡ true
  unfolding run step
  run-starts handler es l =
      run-coherent es (start (new_client handler)).1 l (started-coherent handler)
