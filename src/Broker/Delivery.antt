-- ===== src/Broker/Delivery.antt =====
-- What becomes of the messages that are sent through a channel.
use rsp.Base.{
  ◌≡◌, refl, sym, ap, ◌∙◌, Bool, true, Option, List, [], ◌∷◌, ◌++◌, if◌then◌else◌, Bytes, arith,
  append_assoc, append-nil, append_chain,
}
use rsp.Broker.Channels.{
  Channel, Round, send, send_until, send_each, dealer_round, router_round, publisher_round, no_loss,
}

module _ {M : Type 0} where
  send_until-append :
      (ok : M → Bool) (ms : List M) → (send_until ok ms).0 ++ (send_until ok ms).1 ≡ ms
  unfolding send_until
  send_until-append ok [] = refl
  send_until-append ok (m ∷ ms) = ground (arith, send_until-append ok ms)

  -- The messages that satisfy a test.
  abbrev pub filter : (M → Bool) → List M → List M
  filter ok [] = []
  filter ok (m ∷ ms) = let rest = filter ok ms in if ok m then m ∷ rest else rest

  filter-append : (ok : M → Bool) (a b : List M) → filter ok (a ++ b) ≡ filter ok a ++ filter ok b
  filter-append ok [] b = refl
  filter-append ok (m ∷ a) b = ground (arith, filter-append ok a b)

  send_each-filter : (ok : M → Bool) (ms : List M) → (send_each ok ms).0 ≡ filter ok ms
  unfolding send_each
  send_each-filter ok [] = refl
  send_each-filter ok (m ∷ ms) = ground (arith, send_each-filter ok ms)

-- A call of `send`, or a round with what the poll delivers.
pub data Event (M I : Type 0) : Type 0 where
  sends : M → Event M I
  rounds : I → Event M I

module _ {M I : Type 0} where
  abbrev pub sent : List (Event M I) → List M
  sent [] = []
  sent (sends m ∷ es) = m ∷ sent es
  sent (rounds i ∷ es) = sent es

  -- A run of the events with a given round; the transmitted and the lost messages are collected.
  unfoldable pub run :
      (I → Channel M → Round M) → List (Event M I) → Channel M → List M × List M × Channel M
  unfolding send
  run round [] c = ([], [], c)
  run round (sends m ∷ es) c = run round es (send m c)
  run round (rounds i ∷ es) c =
      let r = round i c in
      let (out, gone, last) = run round es r.channel in (r.transmitted ++ out, r.lost ++ gone, last)

router_round-filter :
    (ok : Bytes × Bytes → Bool) (i : Option (List Bytes)) (c : Channel (Bytes × Bytes))
    → filter ok c.outgoing
      ≡ (router_round ok i c).transmitted ++ filter ok (router_round ok i c).channel.outgoing
unfolding router_round
router_round-filter ok i c =
    ground (arith, send_each-filter ok c.outgoing, append-nil (filter ok c.outgoing))

-- Over any sends and rounds of a router, whatever arrives, each message to a reachable route is
-- transmitted once or still queued, in the order of the sends: an unreachable route costs its own
-- messages only.
pub run-router_round :
    (reachable : Bytes × Bytes → Bool) (es : List (Event (Bytes × Bytes) (Option (List Bytes))))
    (c : Channel (Bytes × Bytes))
    → let (out, gone, last) = run (router_round reachable) es c in
      filter reachable (c.outgoing ++ sent es) ≡ out ++ filter reachable last.outgoing
unfolding run send
run-router_round ok [] c = ap (filter ok) (append-nil c.outgoing)
run-router_round ok (sends m ∷ es) c =
    ap (filter ok) (sym (append_assoc c.outgoing (m ∷ []) (sent es)))
    ∙ run-router_round ok es (send m c)
run-router_round ok (rounds i ∷ es) c =
    let r = router_round ok i c in
    let (out, gone, last) = run (router_round ok) es r.channel in
    filter-append ok c.outgoing (sent es)
    ∙ append_chain (filter ok c.outgoing) [] r.transmitted (filter ok r.channel.outgoing)
        (filter ok (sent es)) out (filter ok last.outgoing)
        (append-nil (filter ok c.outgoing) ∙ router_round-filter ok i c)
        (sym (filter-append ok r.channel.outgoing (sent es)) ∙ run-router_round ok es r.channel)

-- A round of a channel that stops at the first send that throws.
pub record IsStrict {M I : Type 0} (round : I → Channel M → Round M) : Type 0 where
  pub alive :
      (i : I) (c : Channel M) → (round i c).channel.worker.running ≡ true → c.worker.running ≡ true
  pub kept :
      (i : I) (c : Channel M) → (round i c).channel.worker.running ≡ true → (round i c).lost ≡ []
  pub moved :
      (i : I) (c : Channel M)
      → (round i c).channel.worker.running ≡ true
      → c.outgoing ≡ (round i c).transmitted ++ (round i c).channel.outgoing

send_until-all :
    {M : Type 0} (ok : M → Bool) (ms : List M)
    → no_loss (send_until ok ms).1 ≡ true
    → (send_until ok ms).0 ≡ ms
unfolding send_until
send_until-all ok [] h = refl
send_until-all ok (m ∷ ms) h = ground (arith, send_until-all ok ms)

no_loss_nil : {M : Type 0} (gone : List M) → no_loss gone ≡ true → gone ≡ []
no_loss_nil [] h = refl
no_loss_nil (m ∷ gone) h = cc

dealer_round-IsStrict : (ok : Bytes → Bool) → IsStrict (dealer_round ok)
unfolding dealer_round
dealer_round-IsStrict ok = record {
  alive = λ i c h. ground arith;
  kept = λ i c h. ground arith;
  moved = λ i c h. ground (arith, send_until-all ok c.outgoing, append-nil c.outgoing);
}

-- event_publisher::run takes no input.
abbrev pub publish_round :
    (Bytes × Bytes → Bool) → Unit {0} → Channel (Bytes × Bytes) → Round (Bytes × Bytes)
publish_round ok i c = publisher_round ok c

publish_round-IsStrict : (ok : Bytes × Bytes → Bool) → IsStrict (publish_round ok)
unfolding publisher_round
publish_round-IsStrict ok = record {
  alive = λ i c h. ground arith;
  kept = λ i c h. ground (arith, no_loss_nil (send_until ok c.outgoing).1);
  moved = λ i c h. ground (arith, send_until-all ok c.outgoing, append-nil c.outgoing);
}

module _ {M I : Type 0} (round : I → Channel M → Round M) (strict : IsStrict round) where
  run-IsStrict :
      (es : List (Event M I)) (c : Channel M)
      → (run round es c).2.worker.running ≡ true
      → (c.worker.running ≡ true)
        × ((run round es c).1 ≡ [])
        × (c.outgoing ++ sent es ≡ (run round es c).0 ++ (run round es c).2.outgoing)
  unfolding run send
  run-IsStrict [] c h = (h, refl, append-nil c.outgoing)
  run-IsStrict (sends m ∷ es) c h =
      let (live, kept, eq) = run-IsStrict es (send m c) h in
      (live, kept, sym (append_assoc c.outgoing (m ∷ []) (sent es)) ∙ eq)
  run-IsStrict (rounds i ∷ es) c h =
      let r = round i c in
      let (live, kept, eq) = run-IsStrict es r.channel h in
      let (out, gone, last) = run round es r.channel in
      (
        strict.alive i c live,
        rw (strict.kept i c live, kept) refl,
        append_chain c.outgoing [] r.transmitted r.channel.outgoing (sent es) out last.outgoing
            (append-nil c.outgoing ∙ strict.moved i c live) eq,
      )

-- While the loop of a dealer still runs, each message that was sent has gone out once or is still
-- queued, in the order of the sends, and none is lost.
pub run-dealer_round :
    (ok : Bytes → Bool) (es : List (Event Bytes (Option Bytes))) (c : Channel Bytes)
    → (run (dealer_round ok) es c).2.worker.running ≡ true
    → let (out, gone, last) = run (dealer_round ok) es c in
      (gone ≡ []) × (c.outgoing ++ sent es ≡ out ++ last.outgoing)
run-dealer_round ok es c h =
    let k = run-IsStrict (dealer_round ok) (dealer_round-IsStrict ok) es c h in (k.1, k.2)

-- The same of a publisher's events.
pub run-publish_round :
    (ok : Bytes × Bytes → Bool) (es : List (Event (Bytes × Bytes) (Unit {0})))
    (c : Channel (Bytes × Bytes))
    → (run (publish_round ok) es c).2.worker.running ≡ true
    → let (out, gone, last) = run (publish_round ok) es c in
      (gone ≡ []) × (c.outgoing ++ sent es ≡ out ++ last.outgoing)
run-publish_round ok es c h =
    let k = run-IsStrict (publish_round ok) (publish_round-IsStrict ok) es c h in (k.1, k.2)
