-- ===== src/QueuedRequests.antt =====
-- queued_requests.hpp (rsp-libs/include/rsplib/message): which requests of the User server are
-- admitted, started, cancelled and remembered. A key is the sender's route and its request id. A
-- ticket is shared by pointer, so the tickets stand in a store under their addresses.
pub mod Tickets
pub mod Memory
pub mod Invariant
pub mod Run
pub mod Admission
use rsp.Base.{
  ℕ, suc, ◌+◌, Bool, true, false, Option, none, some, List, [], ◌∷◌, ltb, leb, ◌==◌, ◌||◌,
  if◌then◌else◌, length, Bytes, Key, nat_key, bytes_key, pair_key,
}
use rsp.Base.Map.{Map, find, insert, erase, contains}

pub data TicketState : Type 0 where
  queued started cancelled : TicketState

-- `queued_requests::key`, the type at which the channel uses the registry.
abbrev pub RequestKey : Type 0
RequestKey = Bytes × ℕ

pub record QueuedRequests (K : Type 0) : Type 0 where
  pub capacity : ℕ
  pub retention : ℕ
  pub active : Map K ℕ
  pub terminal : Map K ℕ
  pub tickets : Map ℕ TicketState
  pub next_ticket : ℕ

-- ticket::try_start, ticket::started and ticket::cancel, on the state that the ticket holds.
unfoldable pub try_start_state : TicketState → Bool × TicketState
try_start_state queued = (true, started)
try_start_state s = (false, s)

unfoldable pub is_started : TicketState → Bool
is_started started = true
is_started s = false

unfoldable pub cancel_state : TicketState → TicketState
cancel_state queued = cancelled
cancel_state s = s

module _ {K : Type 0} where
  unfoldable pub init : ℕ → ℕ → QueuedRequests K
  init capacity retention = record {
    capacity = capacity;
    retention = retention;
    active = [];
    terminal = [];
    tickets = [];
    next_ticket = 0;
  }

  unfoldable pub started? : QueuedRequests K → ℕ → Bool
  unfolding is_started
  started? q t = elim (find t q.tickets) [ none ↦ false | some s ↦ is_started s ]

  unfoldable pub try_start : QueuedRequests K → ℕ → Bool × QueuedRequests K
  unfolding try_start_state
  try_start q t = elim (find t q.tickets) [
    | none ↦ (false, q)
    | some s ↦
        let (won, s') = try_start_state s in (won, record q { tickets = insert t s' q.tickets })
  ]

  -- The loop of `prune`.
  unfoldable pub prune_loop : ℕ → Map K ℕ → Map K ℕ
  prune_loop now [] = []
  prune_loop now ((k, until) ∷ m) =
      let rest = prune_loop now m in if leb until now then rest else (k, until) ∷ rest

  unfoldable pub prune : ℕ → QueuedRequests K → QueuedRequests K
  unfolding prune_loop
  prune now q = record q { terminal = prune_loop now q.terminal }

  -- std::min_element by the time: the first of the least.
  unfoldable pub oldest : K × ℕ → Map K ℕ → K × ℕ
  oldest best [] = best
  oldest best (e ∷ m) = oldest (if ltb e.1 best.1 then e else best) m

  -- found->second->cancel()
  unfoldable pub cancel_ticket : ℕ → QueuedRequests K → QueuedRequests K
  unfolding cancel_state
  cancel_ticket t q = elim (find t q.tickets) [
    | none ↦ q
    | some s ↦ record q { tickets = insert t (cancel_state s) q.tickets }
  ]

module _ {K : Type 0} ⦃o : Key K⦄ where
  unfoldable pub evict : Map K ℕ → Map K ℕ
  unfolding oldest
  evict [] = []
  evict (e ∷ m) = erase (oldest e m).0 (e ∷ m)

  unfoldable pub remember : K → ℕ → QueuedRequests K → QueuedRequests K
  remember id now q =
      if q.capacity == 0
      then q
      else (let kept =
            if leb q.capacity (length q.terminal) then evict q.terminal else q.terminal in
          record q { terminal = insert id (now + q.retention) kept })

  unfoldable pub admit : K → ℕ → QueuedRequests K → Option ℕ × QueuedRequests K
  admit id now q =
      let p = prune now q in
      if contains id p.active || (contains id p.terminal || leb p.capacity (length p.active))
      then (none, p)
      else (
        some p.next_ticket,
        record p {
          active = insert id p.next_ticket p.active;
          tickets = insert p.next_ticket queued p.tickets;
          next_ticket = suc p.next_ticket;
        },
      )

  unfoldable pub cancel : K → ℕ → QueuedRequests K → QueuedRequests K
  cancel id now q =
      let p = prune now q in
      elim (find id p.active) [
        | some t ↦ cancel_ticket t p
        | none ↦ if contains id p.terminal then p else remember id now p
      ]

  unfoldable pub finish : K → ℕ → ℕ → QueuedRequests K → Bool × QueuedRequests K
  finish id request now q = elim (find id q.active) [
    | none ↦ (false, q)
    | some t ↦
        if t == request
        then (true, remember id now (prune now (record q { active = erase id q.active })))
        else (false, q)
  ]
