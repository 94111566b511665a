-- ===== src/UserChannel/Outcomes.antt =====
-- What comes of a request that is admitted, when its task asks and completes.
use rsp.Base.{
  ℕ, ◌≡◌, ◌++◌, ◌∷◌, [], sym, subst, ap, ◌∙◌, true, false, some, bytes_key, nat_key, pair_key, Key,
  arith, ==_iff, Option-cases, inl, inr,
}
use rsp.Base.Map.{find, find-insert}
use rsp.QueuedRequests.{
  QueuedRequests, RequestKey, queued, started, cancelled, admit, cancel, finish, try_start,
  started?, prune, cancel_ticket, is_started, try_start_state, cancel_state,
}
use rsp.Broker.Channels.{send}
use rsp.UserChannel.{UserChannel, send_to, cancel_request, handle_request, is_active, complete}

module _ {K : Type 0} ⦃o : Key K⦄ where
  admit-active :
      (id : K) (now t : ℕ) (q : QueuedRequests K)
      → (admit id now q).0 ≡ some t
      → find id (admit id now q).1.active ≡ some t
  unfolding admit
  admit-active id now t q e =
      ground (
        arith,
        e,
        o.beq_iff id id,
        find-insert id id (prune now q).next_ticket (prune now q).active,
      )

  admit-queued :
      (id : K) (now t : ℕ) (q : QueuedRequests K)
      → (admit id now q).0 ≡ some t
      → find t (admit id now q).1.tickets ≡ some queued
  unfolding admit
  admit-queued id now t q e =
      ground (arith, e, ==_iff t t, find-insert t t queued (prune now q).tickets)

  module _ (t : ℕ) (q : QueuedRequests K) where
    try_start-queued :
        find t q.tickets ≡ some queued
        → ((try_start q t).0 ≡ true)
          × ((try_start q t).1.active ≡ q.active)
          × (started? (try_start q t).1 t ≡ true)
    unfolding try_start try_start_state started? is_started
    try_start-queued e = (
      ground (arith, e),
      ground (arith, e),
      ground (arith, e, ==_iff t t, find-insert t t started q.tickets),
    )

    try_start-cancelled :
        find t q.tickets ≡ some cancelled
        → ((try_start q t).0 ≡ false) × (started? (try_start q t).1 t ≡ false)
    unfolding try_start try_start_state started? is_started
    try_start-cancelled e =
        (ground (arith, e), ground (arith, e, ==_iff t t, find-insert t t cancelled q.tickets))

    cancel-queued :
        (id : K) (now : ℕ)
        → find id q.active ≡ some t
        → find t q.tickets ≡ some queued
        → find t (cancel id now q).tickets ≡ some cancelled
    unfolding cancel prune cancel_ticket cancel_state
    cancel-queued id now a e = ground (arith, a, e, ==_iff t t, find-insert t t cancelled q.tickets)

    finish-active : (id : K) (now : ℕ) → find id q.active ≡ some t → (finish id t now q).0 ≡ true
    unfolding finish
    finish-active id now a = ground (arith, a, ==_iff t t)

module _ {M : Type 0} where
  handle_request-admit :
      (id now t : ℕ) (c : UserChannel M)
      → (handle_request false id now c).0 ≡ some t
      → let (ticket, requests) = admit (c.current_route, id) now c.requests in
        (ticket ≡ some t) × ((handle_request false id now c).1 ≡ record c { requests = requests })
  unfolding handle_request
  handle_request-admit id now t c h =
      elim (Option-cases (admit (c.current_route, id) now c.requests).0) [
        | inl e ↦ (ground (arith, e, h), ground (arith, e, h))
        | inr (u, e) ↦ (ground (arith, e, h), ground (arith, e, h))
      ]

  module _ (key : RequestKey) (t : ℕ) (m : M) (later : ℕ) (c : UserChannel M) where
    complete-started :
        (finish key t later c.requests).0 ≡ true
        → started? c.requests t ≡ true
        → (complete key t m later c).channel.outgoing ≡ c.channel.outgoing ++ (key.0, m) ∷ []
    unfolding complete send_to send
    complete-started f s = ground (arith, f, s)

    complete-unstarted :
        started? c.requests t ≡ false
        → (complete key t m later c).channel.outgoing ≡ c.channel.outgoing
    unfolding complete
    complete-unstarted s = ground (arith, s)

  -- From where the request is active and its ticket queued.
  ends :
      (id between later t : ℕ) (m : M) (c : UserChannel M)
      → find (c.current_route, id) c.requests.active ≡ some t
      → find t c.requests.tickets ≡ some queued
      → let asked = is_active t c in
        let late = is_active t (cancel_request id between c) in
        (asked.0 ≡ true)
        × ((complete (c.current_route, id) t m later asked.1).channel.outgoing
            ≡ c.channel.outgoing ++ (c.current_route, m) ∷ [])
        × (late.0 ≡ false)
        × ((complete (c.current_route, id) t m later late.1).channel.outgoing ≡ c.channel.outgoing)
  unfolding is_active cancel_request
  ends id between later t m c a e =
      let key : RequestKey = (c.current_route, id) in
      let on = try_start-queued t c.requests e in
      let off =
        try_start-cancelled t (cancel key between c.requests)
          (cancel-queued t c.requests key between a e) in
      (
        on.0,
        complete-started key t m later (is_active t c).1
            (finish-active t (try_start c.requests t).1 key later (ap (find key) on.1 ∙ a)) on.2,
        off.0,
        complete-unstarted key t m later (is_active t (cancel_request id between c)).1 off.1,
      )

-- A request that is admitted and handled is told to run when its task asks, and its completion then
-- sends the response to the route that it came from. If it is cancelled between the two, the task
-- is told not to run, and the completion sends nothing.
pub complete-handle_request :
    {M : Type 0} (id now between later t : ℕ) (m : M) (c : UserChannel M)
    → (handle_request false id now c).0 ≡ some t
    → let admitted = (handle_request false id now c).1 in
      let asked = is_active t admitted in
      let late = is_active t (cancel_request id between admitted) in
      (asked.0 ≡ true)
      × ((complete (c.current_route, id) t m later asked.1).channel.outgoing
          ≡ c.channel.outgoing ++ (c.current_route, m) ∷ [])
      × (late.0 ≡ false)
      × ((complete (c.current_route, id) t m later late.1).channel.outgoing ≡ c.channel.outgoing)
complete-handle_request {M} id now between later t m c h =
    let k = handle_request-admit id now t c h in
    let q = (admit (c.current_route, id) now c.requests).1 in
    subst
      (λ d.
        ((is_active t d).0 ≡ true)
        × ((complete (c.current_route, id) t m later (is_active t d).1).channel.outgoing
            ≡ c.channel.outgoing ++ (c.current_route, m) ∷ [])
        × ((is_active t (cancel_request id between d)).0 ≡ false)
        × (let late =
              complete (c.current_route, id) t m later
                (is_active t (cancel_request id between d)).1 in
            late.channel.outgoing ≡ c.channel.outgoing))
      (sym k.1)
      (ends id between later t m (record c { requests = q })
        (admit-active (c.current_route, id) now t c.requests k.0)
        (admit-queued (c.current_route, id) now t c.requests k.0))
