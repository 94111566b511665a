-- ===== src/UserChannel/Responses.antt =====
-- How often a request of a User server is answered.
use rsp.Base.{
  ℕ, ◌+◌, ◌≤◌, ◌≡◌, sym, subst, Bool, true, false, none, some, List, [], ◌∷◌, ◌==◌, ◌&&◌,
  if◌then◌else◌, Bytes, bytes_key, nat_key, pair_key, arith, bit, length, ◌-◌, length-append,
  ==_iff, inl, inr, Option-cases,
}
use rsp.QueuedRequests.{init, QueuedRequests, RequestKey, admit, finish, started?}
use rsp.QueuedRequests.Invariant.{
  IsValid, admit-IsValid, cancel-IsValid, finish-IsValid, try_start-IsValid,
}
use rsp.UserChannel.Tickets.{
  due, due-admit, due-cancel, due-finish, due-try_start, started-admit, started-cancel,
  started-finish, started-try_start, due-init, started-init,
}
use rsp.Broker.Channels.{send}
use rsp.QueuedRequests.Run.{init-IsValid}
use rsp.UserChannel.{
  UserChannel, new_user_channel, receive, send_to, respond_at_once, cancel_request, handle_request,
  is_active, complete,
}

pub data Event (M : Type 0) : Type 0 where
  receives : Bytes → Event M
  notifies : Bytes → M → Event M
  responds : M → Event M
  cancels : ℕ → ℕ → Event M
  handles : (throws : Bool) → ℕ → ℕ → Event M
  asks : ℕ → Event M
  completes : RequestKey → ℕ → M → ℕ → Event M

module _ {M : Type 0} where
  unfoldable pub step : Event M → UserChannel M → UserChannel M
  unfolding receive send_to respond_at_once cancel_request handle_request is_active complete
  step (receives source) c = receive source c
  step (notifies destination message) c = send_to destination message c
  step (responds response) c = respond_at_once response c
  step (cancels request_id now) c = cancel_request request_id now c
  step (handles throws request_id now) c = (handle_request throws request_id now c).1
  step (asks ticket) c = (is_active ticket c).1
  step (completes key ticket response now) c = complete key ticket response now c

  -- How many responses a completion of the ticket sends.
  abbrev pub response : ℕ → Event M → UserChannel M → ℕ
  response t (completes key u m now) c =
      if u == t
      then length (complete key u m now c).channel.outgoing - length c.channel.outgoing
      else 0
  response t e c = 0

  -- 1 where a task of the ticket is told to run.
  abbrev pub go_ahead : ℕ → Event M → UserChannel M → ℕ
  go_ahead t (asks u) c = bit ((u == t) && (is_active u c).0)
  go_ahead t e c = 0

  abbrev pub responses : ℕ → List (Event M) → UserChannel M → ℕ
  responses t [] c = 0
  responses t (e ∷ es) c = response t e c + responses t es (step e c)

  abbrev pub go_aheads : ℕ → List (Event M) → UserChannel M → ℕ
  go_aheads t [] c = 0
  go_aheads t (e ∷ es) c = go_ahead t e c + go_aheads t es (step e c)

  response_complete :
      (t : ℕ) (key : RequestKey) (u : ℕ) (m : M) (now : ℕ) (c : UserChannel M)
      → response t (completes key u m now) c
        ≡ bit ((u == t) && ((finish key u now c.requests).0 && started? c.requests u))
  unfolding complete send_to send
  response_complete t key u m now c =
      ground (arith, length-append c.channel.outgoing ((key.0, m) ∷ []))

  requests-complete :
      (key : RequestKey) (u : ℕ) (m : M) (now : ℕ) (c : UserChannel M)
      → (complete key u m now c).requests ≡ (finish key u now c.requests).1
  unfolding complete send_to
  requests-complete key u m now c = ground arith

  requests-refused :
      (throws : Bool) (id now : ℕ) (c : UserChannel M)
      → (admit (c.current_route, id) now c.requests).0 ≡ none
      → (handle_request throws id now c).1.requests ≡ (admit (c.current_route, id) now c.requests).1
  unfolding handle_request
  requests-refused throws id now c e = ground (arith, e)

  requests-admitted :
      (throws : Bool) (id now u : ℕ) (c : UserChannel M)
      → (admit (c.current_route, id) now c.requests).0 ≡ some u
      → (handle_request throws id now c).1.requests ≡ (
          if throws
          then (finish (c.current_route, id) u now (admit (c.current_route, id) now c.requests).1).1
          else (admit (c.current_route, id) now c.requests).1)
  unfolding handle_request
  requests-admitted throws id now u c e = ground (arith, e)

  ended :
      (P : QueuedRequests RequestKey → Type 0) (throws : Bool) (u id now : ℕ) (c : UserChannel M)
      → (admit (c.current_route, id) now c.requests).0 ≡ some u
      → P (admit (c.current_route, id) now c.requests).1
      → P (finish (c.current_route, id) u now (admit (c.current_route, id) now c.requests).1).1
      → P (handle_request throws id now c).1.requests
  ended P true u id now c e p f = subst P (sym (requests-admitted true id now u c e)) f
  ended P false u id now c e p f = subst P (sym (requests-admitted false id now u c e)) p

  -- What holds after the admission, and of any end of the request then, holds after the handler.
  requests-handle_request :
      (P : QueuedRequests RequestKey → Type 0) (throws : Bool) (id now : ℕ) (c : UserChannel M)
      → P (admit (c.current_route, id) now c.requests).1
      → ((u : ℕ)
          → P (finish (c.current_route, id) u now (admit (c.current_route, id) now c.requests).1).1)
      → P (handle_request throws id now c).1.requests
  requests-handle_request P throws id now c p f =
      elim (Option-cases (admit (c.current_route, id) now c.requests).0) [
        | inl e ↦ subst P (sym (requests-refused throws id now c e)) p
        | inr (u, e) ↦ ended P throws u id now c e p (f u)
      ]

  step-IsValid :
      (e : Event M) (c : UserChannel M) → IsValid c.requests → IsValid (step e c).requests
  unfolding step receive send_to respond_at_once cancel_request is_active
  step-IsValid (receives source) c v = v
  step-IsValid (notifies destination message) c v = v
  step-IsValid (responds m) c v = v
  step-IsValid (cancels id now) c v = cancel-IsValid (c.current_route, id) now c.requests v
  step-IsValid (handles throws id now) c v =
      let q = (admit (c.current_route, id) now c.requests).1 in
      let w = admit-IsValid (c.current_route, id) now c.requests v in
      requests-handle_request IsValid throws id now c w
        (λ u. finish-IsValid (c.current_route, id) u now q w)
  step-IsValid (asks u) c v = try_start-IsValid u c.requests v
  step-IsValid (completes key u m now) c v =
      subst IsValid (sym (requests-complete key u m now c)) (finish-IsValid key u now c.requests v)

  -- What a step may answer is taken from what is due.
  step-due :
      (t : ℕ) (e : Event M) (c : UserChannel M)
      → IsValid c.requests
      → response t e c + due t (step e c).requests ≤ due t c.requests
  unfolding step receive send_to respond_at_once cancel_request is_active
  step-due t (receives source) c v = omega arith
  step-due t (notifies destination message) c v = omega arith
  step-due t (responds m) c v = omega arith
  step-due t (cancels id now) c v = omega (arith, due-cancel t (c.current_route, id) now c.requests)
  step-due t (handles throws id now) c v =
      let q = (admit (c.current_route, id) now c.requests).1 in
      requests-handle_request (λ p. 0 + due t p ≤ due t c.requests) throws id now c
        (omega (arith, due-admit t (c.current_route, id) now c.requests))
        (λ u.
          let w = admit-IsValid (c.current_route, id) now c.requests v in
          omega (
            arith,
            due-admit t (c.current_route, id) now c.requests,
            due-finish t (c.current_route, id) u now q w,
          ))
  step-due t (asks u) c v = omega (arith, due-try_start t u c.requests)
  step-due t (completes key u m now) c v =
      rw (requests-complete key u m now c, response_complete t key u m now c)
        (ground (arith, due-finish t key u now c.requests v))

  -- A response is sent for a started ticket, and a ticket is started by a go-ahead.
  step-started :
      (t : ℕ) (e : Event M) (c : UserChannel M)
      → IsValid c.requests
      → (response t e c ≤ bit (started? c.requests t))
        × (bit (started? (step e c).requests t) ≤ bit (started? c.requests t) + go_ahead t e c)
  unfolding step receive send_to respond_at_once cancel_request is_active
  step-started t (receives source) c v = (omega arith, omega arith)
  step-started t (notifies destination message) c v = (omega arith, omega arith)
  step-started t (responds m) c v = (omega arith, omega arith)
  step-started t (cancels id now) c v =
      (omega arith, ground (arith, started-cancel t (c.current_route, id) now c.requests))
  step-started t (handles throws id now) c v = (
    omega arith,
    (let q = (admit (c.current_route, id) now c.requests).1 in
        let k = started-admit t (c.current_route, id) now c.requests v in
        requests-handle_request (λ p. bit (started? p t) ≤ bit (started? c.requests t) + 0) throws
          id now c (ground (arith, k))
          (λ u. ground (arith, k, started-finish t (c.current_route, id) u now q))),
  )
  step-started t (asks u) c v = (omega arith, omega (arith, started-try_start t u c.requests))
  step-started t (completes key u m now) c v = (
    rw (response_complete t key u m now c) (ground (arith, ==_iff u t)),
    rw (requests-complete key u m now c) (ground (arith, started-finish t key u now c.requests)),
  )

  responses-due :
      (t : ℕ) (es : List (Event M)) (c : UserChannel M)
      → IsValid c.requests
      → responses t es c ≤ due t c.requests
  responses-due t [] c v = omega arith
  responses-due t (e ∷ es) c v =
      omega (arith, step-due t e c v, responses-due t es (step e c) (step-IsValid e c v))

  responses-started :
      (t : ℕ) (es : List (Event M)) (c : UserChannel M)
      → IsValid c.requests
      → due t c.requests ≤ 1
      → responses t es c ≤ bit (started? c.requests t) + go_aheads t es c
  responses-started t [] c v d = omega arith
  responses-started t (e ∷ es) c v d =
      let k = step-started t e c v in
      let w = step-IsValid e c v in
      omega (
        arith,
        k.0,
        k.1,
        step-due t e c v,
        responses-due t es (step e c) w,
        responses-started t es (step e c) w (omega (arith, step-due t e c v)),
      )

  -- Whatever a new channel receives, sends, cancels, admits and completes, each ticket is answered
  -- once at most, and not more often than a task of its request was told to run.
  pub responses-new_user_channel :
      (t : ℕ) (es : List (Event M))
      → (responses t es new_user_channel ≤ 1)
        × (responses t es new_user_channel ≤ go_aheads t es new_user_channel)
  responses-new_user_channel t es =
      let v : IsValid {K = RequestKey} (init 4096 30) = init-IsValid 4096 30 in
      let one = due-init t 4096 30 in
      (
        omega (arith, responses-due t es new_user_channel v, one),
        ground (
          arith,
          responses-started t es new_user_channel v (omega (arith, one)),
          started-init t 4096 30,
        ),
      )
