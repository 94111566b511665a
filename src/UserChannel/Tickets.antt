-- ===== src/UserChannel/Tickets.antt =====
-- What the operations of the registry do to one ticket.
use rsp.Base.{
  ℕ, ◌+◌, ◌≡◌, refl, true, false, ◌==◌, ◌&&◌, if◌then◌else◌, Key, bytes_key, nat_key, pair_key,
  arith, bit, ltb, ==_iff, inl, inr, Option-cases,
}
use rsp.Base.Map.{find, total, total-insert_new, total-erase, find-insert}
use rsp.QueuedRequests.{
  init, QueuedRequests, RequestKey, queued, started, cancelled, admit, cancel, finish, try_start,
  started?, prune, remember, cancel_ticket, is_started, try_start_state, cancel_state,
}
use rsp.QueuedRequests.Invariant.{IsValid}

module _ {K : Type 0} ⦃o : Key K⦄ (t : ℕ) where
  -- The completions of the ticket that can still find it: it is not issued, or it is active.
  abbrev pub due : QueuedRequests K → ℕ
  due q = bit (if ltb t q.next_ticket then false else true) + total (λ u. bit (u == t)) q.active

  pub due-admit : (id : K) (now : ℕ) (q : QueuedRequests K) → due (admit id now q).1 ≡ due q
  unfolding admit prune
  due-admit id now q = ground (
    arith,
    ==_iff t q.next_ticket,
    ==_iff q.next_ticket t,
    total-insert_new (λ u. bit (u == t)) id q.next_ticket q.active,
  )

  pub due-cancel : (id : K) (now : ℕ) (q : QueuedRequests K) → due (cancel id now q) ≡ due q
  unfolding cancel prune remember cancel_ticket
  due-cancel id now q = elim (Option-cases (find id q.active)) [
    | inl e ↦ ground (arith, e)
    | inr (u, e) ↦ ground (arith, e)
  ]

  pub due-finish :
      (id : K) (u now : ℕ) (q : QueuedRequests K)
      → IsValid q
      → bit ((finish id u now q).0 && (u == t)) + due (finish id u now q).1 ≡ due q
  unfolding finish prune remember
  due-finish id u now q v = elim (Option-cases (find id q.active)) [
    | inl e ↦ ground (arith, e)
    | inr (r, e) ↦ ground (
      arith,
      e,
      ==_iff r u,
      ==_iff u t,
      ==_iff r t,
      total-erase (λ u. bit (u == t)) id q.active v.active_sorted,
    )
  ]

  pub due-try_start : (u : ℕ) (q : QueuedRequests K) → due (try_start q u).1 ≡ due q
  unfolding try_start
  due-try_start u q = ground arith

  pub started-admit :
      (id : K) (now : ℕ) (q : QueuedRequests K)
      → IsValid q
      → started? (admit id now q).1 t ≡ started? q t
  unfolding admit prune started? is_started
  started-admit id now q v =
      ground
        (arith, ==_iff t q.next_ticket, v.issued t, find-insert t q.next_ticket queued q.tickets)

  pub started-cancel :
      (id : K) (now : ℕ) (q : QueuedRequests K) → started? (cancel id now q) t ≡ started? q t
  unfolding cancel prune remember cancel_ticket cancel_state started? is_started
  started-cancel id now q = elim (Option-cases (find id q.active)) [
    | inl e ↦ ground (arith, e)
    | inr (u, e) ↦ ground (
      arith,
      e,
      ==_iff t u,
      find-insert t u started q.tickets,
      find-insert t u cancelled q.tickets,
    )
  ]

  pub started-finish :
      (id : K) (u now : ℕ) (q : QueuedRequests K) → started? (finish id u now q).1 t ≡ started? q t
  unfolding finish prune remember started? is_started
  started-finish id u now q = ground arith

  pub started-try_start :
      (u : ℕ) (q : QueuedRequests K)
      → bit (started? (try_start q u).1 t)
        ≡ bit (started? q t) + bit ((u == t) && (try_start q u).0)
  unfolding try_start try_start_state started? is_started
  started-try_start u q = ground (
    arith,
    ==_iff u t,
    ==_iff t u,
    find-insert t u started q.tickets,
    find-insert t u cancelled q.tickets,
  )

-- Before a registry has issued a ticket.
module _ (t capacity retention : ℕ) where
  pub due-init : due t (init {K = RequestKey} capacity retention) ≡ 1
  unfolding init
  due-init = ground arith

  pub started-init : started? (init {K = RequestKey} capacity retention) t ≡ false
  unfolding init started? find
  started-init = refl
