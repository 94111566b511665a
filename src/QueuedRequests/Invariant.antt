-- ===== src/QueuedRequests/Invariant.antt =====
-- The registry stays within its capacity, and no request is both active and remembered.
use rsp.Base.{
  ℕ, suc, ◌+◌, ◌≤◌, ◌<◌, ◌≡◌, true, false, none, some, leb, ◌==◌, ◌||◌, ◌&&◌, length, Key, nat_key,
  bytes_key, pair_key, arith, inl, inr, Option-cases, Bool-cases, ==_iff,
}
use rsp.Base.Map.{
  find, insert, erase, contains, find-insert, find-erase, IsSorted, insert-IsSorted, erase-IsSorted,
  length-insert, length-erase,
}
use rsp.QueuedRequests.{
  TicketState, QueuedRequests, prune, evict, remember, admit, cancel_ticket, cancel, finish,
  try_start, queued, try_start_state, cancel_state,
}
use rsp.QueuedRequests.Memory.{
  evict-IsSorted, find-evict, find-prune_loop, length-evict, length-prune_loop, prune_loop-IsSorted,
}

module _ {K : Type 0} ⦃o : Key K⦄ where
  pub record IsValid (q : QueuedRequests K) : Type 0 where
    pub active_sorted : IsSorted q.active
    pub terminal_sorted : IsSorted q.terminal
    pub active_bound : length q.active ≤ q.capacity
    pub terminal_bound : length q.terminal ≤ q.capacity
    pub apart : (k : K) → (contains k q.active && contains k q.terminal) ≡ false
    pub fresh : (k : K) (t : ℕ) → find k q.active ≡ some t → t < q.next_ticket
    pub distinct : (j k : K) (t : ℕ) → find j q.active ≡ some t → find k q.active ≡ some t → j ≡ k
    pub issued : (t : ℕ) → contains t q.tickets ≡ true → t < q.next_ticket

  pub prune-IsValid : (now : ℕ) (q : QueuedRequests K) → IsValid q → IsValid (prune now q)
  unfolding prune
  prune-IsValid now q v = record {
    active_sorted = v.active_sorted;
    terminal_sorted = prune_loop-IsSorted now q.terminal v.terminal_sorted;
    active_bound = v.active_bound;
    terminal_bound = omega (arith, length-prune_loop now q.terminal, v.terminal_bound);
    apart = λ k. ground (arith, v.apart k, find-prune_loop now k q.terminal v.terminal_sorted);
    fresh = v.fresh;
    distinct = v.distinct;
    issued = v.issued;
  }

  remember-IsValid :
      (id : K) (now : ℕ) (q : QueuedRequests K)
      → find id q.active ≡ none
      → IsValid q
      → IsValid (remember id now q)
  unfolding remember
  remember-IsValid id now q new v = record {
    active_sorted = ground (arith, v.active_sorted);
    terminal_sorted = ground (
      arith,
      v.terminal_sorted,
      evict-IsSorted q.terminal v.terminal_sorted,
      insert-IsSorted id (now + q.retention) q.terminal v.terminal_sorted,
      insert-IsSorted id (now + q.retention) (evict q.terminal)
          (evict-IsSorted q.terminal v.terminal_sorted),
    );
    active_bound = ground (arith, v.active_bound);
    terminal_bound = ground (
      arith,
      v.terminal_bound,
      length-evict q.terminal v.terminal_sorted,
      length-insert id (now + q.retention) q.terminal v.terminal_sorted,
      length-insert id (now + q.retention) (evict q.terminal)
          (evict-IsSorted q.terminal v.terminal_sorted),
    );
    apart = λ k. ground (
      arith,
      v.apart k,
      o.beq_iff k id,
      find-evict k q.terminal,
      find-insert k id (now + q.retention) q.terminal,
      find-insert k id (now + q.retention) (evict q.terminal),
    );
    fresh = λ k t. ground (arith, v.fresh k t);
    distinct = λ j k t. ground (arith, v.distinct j k t);
    issued = λ t. ground (arith, v.issued t);
  }

  entered : K → QueuedRequests K → QueuedRequests K
  entered id p = record p {
    active = insert id p.next_ticket p.active;
    tickets = insert p.next_ticket queued p.tickets;
    next_ticket = suc p.next_ticket;
  }

  entered-IsValid :
      (id : K) (p : QueuedRequests K)
      → find id p.active ≡ none
      → find id p.terminal ≡ none
      → length p.active < p.capacity
      → IsValid p
      → IsValid (entered id p)
  unfolding entered
  entered-IsValid id p new unknown room v = record {
    active_sorted = insert-IsSorted id p.next_ticket p.active v.active_sorted;
    terminal_sorted = v.terminal_sorted;
    active_bound = ground (arith, length-insert id p.next_ticket p.active v.active_sorted);
    terminal_bound = v.terminal_bound;
    apart = λ k. ground (arith, v.apart k, o.beq_iff k id, find-insert k id p.next_ticket p.active);
    fresh =
        λ k t. ground (arith, v.fresh k t, o.beq_iff k id, find-insert k id p.next_ticket p.active);
    distinct = λ j k t. ground (
      arith,
      v.distinct j k t,
      v.fresh j t,
      v.fresh k t,
      o.beq_iff j id,
      o.beq_iff k id,
      find-insert j id p.next_ticket p.active,
      find-insert k id p.next_ticket p.active,
    );
    issued = λ t.
        ground
          (arith, v.issued t, find-insert t p.next_ticket queued p.tickets, ==_iff t p.next_ticket);
  }

  pub admit-IsValid :
      (id : K) (now : ℕ) (q : QueuedRequests K) → IsValid q → IsValid (admit id now q).1
  unfolding admit entered
  admit-IsValid id now q v =
      let p = prune now q in
      let w = prune-IsValid now q v in
      let enter = entered-IsValid id p in
      elim (Bool-cases
        (contains id p.active || (contains id p.terminal || leb p.capacity (length p.active)))) [
          | inl refused ↦ rw refused w
          | inr free ↦ rw free (enter (ground arith) (ground arith) (ground arith) w)
        ]

  -- A ticket of the store changes its state.
  moved : ℕ → TicketState → QueuedRequests K → QueuedRequests K
  moved t s q = record q { tickets = insert t s q.tickets }

  moved-IsValid :
      (t : ℕ) (s : TicketState) (q : QueuedRequests K)
      → contains t q.tickets ≡ true
      → IsValid q
      → IsValid (moved t s q)
  unfolding moved
  moved-IsValid t s q known v = record {
    active_sorted = v.active_sorted;
    terminal_sorted = v.terminal_sorted;
    active_bound = v.active_bound;
    terminal_bound = v.terminal_bound;
    apart = v.apart;
    fresh = v.fresh;
    distinct = v.distinct;
    issued = λ u. ground (arith, v.issued u, v.issued t, find-insert u t s q.tickets, ==_iff u t);
  }

  cancel_ticket-IsValid : (t : ℕ) (q : QueuedRequests K) → IsValid q → IsValid (cancel_ticket t q)
  unfolding cancel_ticket moved
  cancel_ticket-IsValid t q v = elim (Option-cases (find t q.tickets)) [
    | inl e ↦ rw (e, cancel_ticket) v
    | inr (s, e) ↦ rw (e, cancel_ticket) (moved-IsValid t (cancel_state s) q (rw e) v)
  ]

  pub try_start-IsValid : (t : ℕ) (q : QueuedRequests K) → IsValid q → IsValid (try_start q t).1
  unfolding try_start moved
  try_start-IsValid t q v = elim (Option-cases (find t q.tickets)) [
    | inl e ↦ rw (e, try_start) v
    | inr (s, e) ↦ rw (e, try_start) (moved-IsValid t (try_start_state s).1 q (rw e) v)
  ]

  pub cancel-IsValid :
      (id : K) (now : ℕ) (q : QueuedRequests K) → IsValid q → IsValid (cancel id now q)
  unfolding cancel
  cancel-IsValid id now q v =
      let p = prune now q in
      let w = prune-IsValid now q v in
      elim (Option-cases (find id p.active)) [
        | inr (t, e) ↦ rw (e, cancel) (cancel_ticket-IsValid t p w)
        | inl e ↦ elim (Bool-cases (contains id p.terminal)) [
          | inl known ↦ rw (e, cancel) (rw known w)
          | inr new ↦ rw (e, cancel) (rw new (remember-IsValid id now p e w))
        ]
      ]

  left_active : K → QueuedRequests K → QueuedRequests K
  left_active id q = record q { active = erase id q.active }

  left_active-IsValid : (id : K) (q : QueuedRequests K) → IsValid q → IsValid (left_active id q)
  unfolding left_active
  left_active-IsValid id q v = record {
    active_sorted = erase-IsSorted id q.active v.active_sorted;
    terminal_sorted = v.terminal_sorted;
    active_bound = ground (arith, length-erase id q.active v.active_sorted);
    terminal_bound = v.terminal_bound;
    apart = λ k. ground (arith, v.apart k, find-erase k id q.active);
    fresh = λ k t. ground (arith, v.fresh k t, find-erase k id q.active);
    distinct = λ j k t.
        ground (arith, v.distinct j k t, find-erase j id q.active, find-erase k id q.active);
    issued = v.issued;
  }

  pub finish-IsValid :
      (id : K) (request now : ℕ) (q : QueuedRequests K)
      → IsValid q
      → IsValid (finish id request now q).1
  unfolding finish left_active prune
  finish-IsValid id request now q v = elim (Option-cases (find id q.active)) [
    | inl e ↦ rw (e, finish) v
    | inr (t, e) ↦ elim (Bool-cases (t == request)) [
      | inr other ↦ rw (e, finish) (rw other v)
      | inl same ↦
          rw (e, finish)
            (rw same (
              remember-IsValid id now (prune now (left_active id q))
                (ground (arith, find-erase id id q.active, o.beq_iff id id))
                (prune-IsValid now (left_active id q) (left_active-IsValid id q v))))
    ]
  ]
