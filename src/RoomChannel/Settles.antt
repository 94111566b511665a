-- ===== src/RoomChannel/Settles.antt =====
-- The operations of a room channel keep the requests and the cancellations in balance.
use rsp.Base.{
  ℕ, suc, ◌+◌, ◌≤◌, ◌<◌, ◌%◌, ◌^◌, ◌≡◌, refl, sym, ap, ◌∙◌, subst, Bool, List, [], ◌∷◌, ◌++◌, All,
  length, count, count-append, arith, nat_key, Option-cases, inl, inr,
}
use rsp.Base.Map.{
  find, insert, erase, IsSorted, insert-IsSorted, erase-IsSorted, length-insert, length-erase,
  total, total-insert_new, total-erase,
}
use rsp.PendingRequests.{Request, PendingRequests, Call, add, take, cancel}
use rsp.Broker.Channels.{send}
use rsp.RoomChannel.{
  ToRoom, request, cancel_request_of, notification, OnTimeout, RoomChannel, send_request,
  send_cancel, cancel_request, send_notification, call_all, timeout_after,
}
use rsp.RoomChannel.Leaves.{
  is_request, is_cancellation, asks_under, cancels_under, is_answer, is_timeout, given_up,
  call_all_lem, Fits, named, Fits-later, Fits-insert, Fits-erase, Fits-fresh, Fits-find, Leaves,
  count-given_up,
}

-- A channel whose handlers were called so often, for responses and for timeouts.
pub record Settles {Q H T : Type 0} (answers timeouts : ℕ) (c : RoomChannel Q H T) : Type 0 where
  pub sorted : IsSorted c.requests.requests
  pub fitting : All (Fits c.next_request_id) c.requests.requests
  pub balance :
      count is_request c.channel.outgoing
      ≡ answers + count is_cancellation c.channel.outgoing + length c.requests.requests
  pub timely : timeouts ≤ count is_cancellation c.channel.outgoing
  pub owed :
      (i : ℕ)
      → count (cancels_under i) c.channel.outgoing + total (named i) c.requests.requests
        ≤ count (asks_under i) c.channel.outgoing

module _ {Q H T R : Type 0} where
  -- The calls of the registry are made by the channel, which has the requests that it keeps.
  pub call_all-Settles :
      (answers timeouts : ℕ) (calls : List (Call H (OnTimeout T) R)) (c : RoomChannel Q H T)
      (p : PendingRequests H (OnTimeout T))
      → Settles answers timeouts c
      → Leaves Q c.next_request_id calls c.requests.requests p.requests
      → let (effects, c') = call_all calls (record c { requests = p }) in
        Settles (count is_answer effects + answers) (count is_timeout effects + timeouts) c'
  call_all-Settles answers timeouts calls c p v l =
      let k = call_all_lem calls (record c { requests = p }) in
      let (effects, c') = call_all calls (record c { requests = p }) in
      let counted = λ (f : ToRoom Q → Bool).
        ap (count f) k.0 ∙ count-append f c.channel.outgoing (given_up Q calls) in
      let kept : c'.requests.requests ≡ p.requests =
        ap (λ (r : PendingRequests H (OnTimeout T)). r.requests) k.1 in
      let g = count-given_up Q calls in
      record {
        sorted = subst IsSorted (sym kept) l.sorted;
        fitting =
            subst (λ n. All (Fits n) c'.requests.requests) (sym k.2)
              (subst (All (Fits c.next_request_id)) (sym kept) l.fitting);
        balance = omega (
          arith,
          counted is_request,
          counted is_cancellation,
          (g 0).0,
          (g 0).1,
          k.3,
          v.balance,
          l.sized,
          ap length kept,
        );
        timely = omega (arith, counted is_cancellation, (g 0).1, k.4, v.timely);
        owed = λ i. omega (
          arith,
          counted (cancels_under i),
          counted (asks_under i),
          (g i).2,
          v.owed i,
          l.owing i,
          ap (total (named i)) kept,
        );
      }

module _ {Q H T : Type 0} where
  -- A send to the Room server that is neither a request nor a cancellation.
  pub send_notification-Settles :
      (answers timeouts : ℕ) (q : Q) (c : RoomChannel Q H T)
      → Settles answers timeouts c
      → Settles answers timeouts (send_notification q c)
  unfolding send_notification send
  send_notification-Settles answers timeouts q c v =
      let counted =
        λ (f : ToRoom Q → Bool). count-append f c.channel.outgoing (notification q ∷ []) in
      record {
        sorted = v.sorted;
        fitting = v.fitting;
        balance = omega (arith, counted is_request, counted is_cancellation, v.balance);
        timely = omega (arith, counted is_cancellation, v.timely);
        owed = λ i. omega (arith, counted (cancels_under i), counted (asks_under i), v.owed i);
      }

  pub cancel_request-Settles :
      (answers timeouts id : ℕ) (c : RoomChannel Q H T)
      → Settles answers timeouts c
      → Settles answers timeouts (cancel_request id c)
  unfolding cancel_request cancel take send_cancel send
  cancel_request-Settles answers timeouts id c v =
      elim (Option-cases (find id c.requests.requests)) [
        | inl e ↦ subst (Settles answers timeouts) (ground (arith, e)) v
        | inr (r, e) ↦
            let counted = λ (f : ToRoom Q → Bool).
              count-append f c.channel.outgoing (cancel_request_of id ∷ []) in
            let named_id = Fits-find c.next_request_id id r c.requests.requests v.fitting e in
            let m = c.requests.requests in
            let left : RoomChannel Q H T = record c {
              requests = record c.requests { requests = erase id m };
              channel = record c.channel {
                outgoing = c.channel.outgoing ++ cancel_request_of id ∷ [];
              };
            } in
            let w : Settles answers timeouts left = record {
              sorted = erase-IsSorted id m v.sorted;
              fitting = Fits-erase c.next_request_id id m v.fitting;
              balance = ground (
                arith,
                e,
                counted is_request,
                counted is_cancellation,
                v.balance,
                length-erase id m v.sorted,
              );
              timely = omega (arith, counted is_cancellation, v.timely);
              owed = λ i. ground (
                arith,
                e,
                named_id,
                counted (cancels_under i),
                counted (asks_under i),
                v.owed i,
                total-erase (named i) id m v.sorted,
              );
            } in
            subst (Settles answers timeouts) (ground (arith, e)) w
      ]

  pub send_request-Settles :
      (answers timeouts : ℕ) (q : Q) (h : H) (on_timeout : T) (now : ℕ) (c : RoomChannel Q H T)
      → suc c.next_request_id < 2 ^ 64
      → Settles answers timeouts c
      → Settles answers timeouts (send_request q h on_timeout now c).1
  unfolding send_request add send
  send_request-Settles answers timeouts q h on_timeout now c small v =
      let id = c.next_request_id in
      let m = c.requests.requests in
      let r : Request H (OnTimeout T) = record {
        deadline = now + timeout_after;
        on_response = h;
        on_timeout = record { request_id = id; on_timeout = on_timeout };
      } in
      let counted =
        λ (f : ToRoom Q → Bool). count-append f c.channel.outgoing (request q id ∷ []) in
      let fresh = Fits-fresh id id m (omega arith) v.fitting in
      let sent : RoomChannel Q H T = record {
        channel = record c.channel { outgoing = c.channel.outgoing ++ request q id ∷ [] };
        requests = record c.requests { requests = insert id r m };
        next_request_id = suc id;
      } in
      let w : Settles answers timeouts sent = record {
        sorted = insert-IsSorted id r m v.sorted;
        fitting = Fits-insert (suc id) id r m (omega arith, refl) (Fits-later id m v.fitting);
        balance = ground (
          arith,
          fresh,
          counted is_request,
          counted is_cancellation,
          v.balance,
          length-insert id r m v.sorted,
        );
        timely = omega (arith, counted is_cancellation, v.timely);
        owed = λ i. omega (
          arith,
          counted (cancels_under i),
          counted (asks_under i),
          v.owed i,
          total-insert_new (named i) id r m fresh,
        );
      } in
      let stays : suc id % 2 ^ 64 ≡ suc id = omega arith in
      subst (Settles answers timeouts) (ground (arith, fresh, stays)) w
