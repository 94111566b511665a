-- ===== src/QueuedRequests/Admission.antt =====
-- Which requests the registry admits.
use rsp.Base.{
  is_some, ◌≢◌, leb, length, ℕ, ◌≡◌, Key, nat_key, arith, true, ◌+◌, ◌<◌, some, none, if◌then◌else◌,
}
use rsp.Base.Map.{find, find-insert, contains, erase}
use rsp.QueuedRequests.{QueuedRequests, admit, cancel, finish, prune, remember, evict}
use rsp.QueuedRequests.Memory.{kept_until, find-prune_loop}
use rsp.QueuedRequests.Invariant.{IsValid, cancel-IsValid, finish-IsValid}

-- What the registry answers to a request.
module _ {K : Type 0} ⦃o : Key K⦄ where
  -- A request is refused exactly when its key is active, or is remembered for a time that is still
  -- to come, or the registry is full; otherwise it gets a new ticket, which is queued.
  pub admit_lem :
      (id : K) (now : ℕ) (q : QueuedRequests K)
      → IsValid q
      → (admit id now q).0 ≡ (
          if contains id q.active
          then none
          else (if is_some (kept_until now (find id q.terminal))
              then none
              else (if leb q.capacity (length q.active) then none else some q.next_ticket)))
  unfolding admit prune
  admit_lem id now q v = ground (arith, find-prune_loop now id q.terminal v.terminal_sorted)

  find-remember :
      (id : K) (now : ℕ) (q : QueuedRequests K)
      → q.capacity ≢ 0
      → find id (remember id now q).terminal ≡ some (now + q.retention)
  unfolding remember
  find-remember id now q positive = ground (
    arith,
    o.beq_iff id id,
    find-insert id id (now + q.retention) q.terminal,
    find-insert id id (now + q.retention) (evict q.terminal),
  )

  remembered-refused :
      (id : K) (later until : ℕ) (q : QueuedRequests K)
      → IsValid q
      → find id q.terminal ≡ some until
      → later < until
      → (admit id later q).0 ≡ none
  remembered-refused id later until q v known soon = rw (admit_lem id later q v) (ground arith)

  -- An active request is finished under its own ticket, and its key is then refused until the
  -- retention is over, where the capacity is not 0.
  pub admit-finish :
      (id : K) (request now later : ℕ) (q : QueuedRequests K)
      → IsValid q
      → find id q.active ≡ some request
      → q.capacity ≢ 0
      → later < now + q.retention
      → ((finish id request now q).0 ≡ true)
        × ((admit id later (finish id request now q).1).0 ≡ none)
  unfolding finish
  admit-finish id request now later q v held positive soon =
      let left : QueuedRequests K = record q { active = erase id q.active } in
      let known = find-remember id now (prune now left) (unfold prune in positive) in
      (
        ground arith,
        remembered-refused id later (now + q.retention) (finish id request now q).1
            (finish-IsValid id request now q v) (unfold prune in ground (arith, known)) soon,
      )

  remembered-cancel :
      (id : K) (now : ℕ) (q : QueuedRequests K)
      → find id q.active ≡ none
      → find id (prune now q).terminal ≡ none
      → q.capacity ≢ 0
      → find id (cancel id now q).terminal ≡ some (now + q.retention)
  unfolding cancel prune
  remembered-cancel id now q idle new positive =
      ground (arith, find-remember id now (prune now q) positive)

  -- A request whose cancellation came before it is refused until the retention is over, where the
  -- capacity is not 0 and neither it nor its cancellation was known yet.
  pub admit-cancel :
      (id : K) (now later : ℕ) (q : QueuedRequests K)
      → IsValid q
      → find id q.active ≡ none
      → find id q.terminal ≡ none
      → q.capacity ≢ 0
      → later < now + q.retention
      → (admit id later (cancel id now q)).0 ≡ none
  admit-cancel id now later q v idle new positive soon =
      let unknown : find id (prune now q).terminal ≡ none =
        unfold prune in ground (arith, find-prune_loop now id q.terminal v.terminal_sorted) in
      remembered-refused id later (now + q.retention) (cancel id now q) (cancel-IsValid id now q v)
        (remembered-cancel id now q idle unknown positive) soon
