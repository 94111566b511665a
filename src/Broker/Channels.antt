-- ===== src/Broker/Channels.antt =====
-- dealer_channel, router_channel and event_publisher: a queue of messages that the channel's thread
-- sends. A dealer's message is a buffer, a router's is one with its route, and a publisher's is one
-- with its topic.
use rsp.Base.{Bool, true, false, Option, none, some, List, [], ◌∷◌, ◌++◌, if◌then◌else◌, Bytes}
use rsp.Broker.Worker.{Worker, new_worker, Started, start, stop, die}

pub record Channel (M : Type 0) : Type 0 where
  pub worker : Worker
  pub outgoing : List M

-- A round: the messages that went out, those that are gone, the frames that the handler was called
-- with, and the channel.
pub record Round (M : Type 0) : Type 0 where
  pub transmitted : List M
  pub lost : List M
  pub handled : List (List Bytes)
  pub channel : Channel M

module _ {M : Type 0} where
  unfoldable pub new_channel : Channel M
  new_channel = record { worker = new_worker; outgoing = [] }

  unfoldable pub send : M → Channel M → Channel M
  send m c = record c { outgoing = c.outgoing ++ m ∷ [] }

  unfoldable pub start_channel : Bool → Channel M → Started × Channel M
  unfolding start
  start_channel ready c =
      let (result, w) = start ready c.worker in (result, record c { worker = w })

  unfoldable pub stop_channel : Channel M → Channel M
  unfolding stop
  stop_channel c = record c { worker = stop c.worker }

  -- The loop of a dealer's or a publisher's send_pending: what goes out until a send throws, and what is dropped
  -- with the local queue.
  unfoldable pub send_until : (M → Bool) → List M → List M × List M
  send_until ok [] = ([], [])
  send_until ok (m ∷ ms) =
      let (out, gone) = send_until ok ms in if ok m then (m ∷ out, gone) else ([], m ∷ ms)

  -- The loop of a router's send_pending: a send that throws is skipped.
  unfoldable pub send_each : (M → Bool) → List M → List M × List M
  send_each ok [] = ([], [])
  send_each ok (m ∷ ms) =
      let (out, gone) = send_each ok ms in if ok m then (m ∷ out, gone) else (out, m ∷ gone)

-- A dealer hands on a message of one frame, if one has come.
unfoldable pub dealer_receives : Option Bytes → List (List Bytes)
dealer_receives none = []
dealer_receives (some message) = (message ∷ []) ∷ []

-- A router and a subscriber hand on two frames, and drop any other number.
unfoldable pub pair_receives : Option (List Bytes) → List (List Bytes)
pair_receives (some (a ∷ b ∷ [])) = (a ∷ b ∷ []) ∷ []
pair_receives frames = []

abbrev pub no_loss {ℓ} : {A : Type ℓ} → List A → Bool
no_loss [] = true
no_loss (x ∷ xs) = false

-- One round of dealer_channel::run. A send that throws ends the loop.
unfoldable pub dealer_round : (Bytes → Bool) → Option Bytes → Channel Bytes → Round Bytes
unfolding send_until dealer_receives die
dealer_round ok incoming c =
    if c.worker.running
    then (let (out, gone) = send_until ok c.outgoing in
        let swapped = record c { outgoing = [] } in
        if no_loss gone
        then (record {
          transmitted = out;
          lost = [];
          handled = dealer_receives incoming;
          channel = swapped;
        })
        else (record {
          transmitted = out;
          lost = gone;
          handled = [];
          channel = record swapped { worker = die c.worker };
        }))
    else (record { transmitted = []; lost = []; handled = []; channel = c })

-- One round of router_channel::run.
unfoldable pub router_round :
    (Bytes × Bytes → Bool) → Option (List Bytes) → Channel (Bytes × Bytes) → Round (Bytes × Bytes)
unfolding send_each pair_receives
router_round ok incoming c =
    if c.worker.running
    then (let (out, gone) = send_each ok c.outgoing in
        record {
          transmitted = out;
          lost = gone;
          handled = pair_receives incoming;
          channel = record c { outgoing = [] };
        })
    else (record { transmitted = []; lost = []; handled = []; channel = c })

-- One round of event_publisher::run.
unfoldable pub publisher_round :
    (Bytes × Bytes → Bool) → Channel (Bytes × Bytes) → Round (Bytes × Bytes)
unfolding send_until die
publisher_round ok c =
    if c.worker.running
    then (let (out, gone) = send_until ok c.outgoing in
        let swapped = record c { outgoing = [] } in
        record {
          transmitted = out;
          lost = gone;
          handled = [];
          channel = if no_loss gone then swapped else record swapped { worker = die c.worker };
        })
    else (record { transmitted = []; lost = []; handled = []; channel = c })
