-- ===== src/Client/Writes.antt =====
-- The client's write queue: one write at a time, in the order of the sends.
use rsp.Base.{◌≡◌, refl, sym, ap, ◌∙◌, false, List, [], ◌∷◌, ◌++◌, arith, append-nil, append_chain}
use rsp.Client.States.{Outgoing}
use rsp.Client.Session.{
  Client, Effect, Step, then_do, queue_write, write_next, write_front, pop_front, handle_write,
}

-- A send of a live session, and the successful end of the write of the front.
pub data Transfer : Type 0 where
  queues : Outgoing → Transfer
  finishes : Transfer

unfoldable pub step : Transfer → Client → Step
unfolding queue_write handle_write
step (queues m) c = queue_write m c
step finishes c = handle_write false c

unfoldable pub run : List Transfer → Client → Step
unfolding step
run [] c = ([], c)
run (t ∷ ts) c = then_do (step t c) (run ts)

-- The messages whose write is started.
abbrev pub written : List Effect → List Outgoing
written [] = []
written (Effect.writes m ∷ es) = m ∷ written es
written (e ∷ es) = written es

abbrev pub sent : List Transfer → List Outgoing
sent [] = []
sent (queues m ∷ ts) = m ∷ sent ts
sent (finishes ∷ ts) = sent ts

abbrev pub sent_by : Transfer → List Outgoing
sent_by (queues m) = m ∷ []
sent_by finishes = []

sent_cons : (t : Transfer) (ts : List Transfer) → sent_by t ++ sent ts ≡ sent (t ∷ ts)
sent_cons (queues m) ts = refl
sent_cons finishes ts = refl

written-append : (a b : List Effect) → written (a ++ b) ≡ written a ++ written b
written-append [] b = refl
written-append (Effect.writes m ∷ a) b = ap (◌∷◌ m) (written-append a b)
written-append (Effect.reads ∷ a) b = written-append a b
written-append (Effect.closes ∷ a) b = written-append a b
written-append (Effect.exits ∷ a) b = written-append a b
written-append (Effect.prompts q ∷ a) b = written-append a b
written-append (Effect.shows_text t ∷ a) b = written-append a b

written-front : (q : List Outgoing) → written (write_front q) ++ pop_front q ≡ q
unfolding write_front pop_front
written-front [] = refl
written-front (m ∷ ms) = refl

-- What waits behind the front, after a send on a queue.
queue_write-written :
    (q : List Outgoing) (m : Outgoing) (c : Client)
    → c.write_queue ≡ q
    → c.stopped ≡ false
    → (pop_front q ++ m ∷ []
        ≡ written (queue_write m c).0 ++ pop_front (queue_write m c).1.write_queue)
      × ((queue_write m c).1.stopped ≡ false)
unfolding queue_write write_front pop_front
queue_write-written [] m c e live = ground arith
queue_write-written (w ∷ ws) m c e live = ground arith

step-written :
    (t : Transfer) (c : Client)
    → c.stopped ≡ false
    → (pop_front c.write_queue ++ sent_by t
        ≡ written (step t c).0 ++ pop_front (step t c).1.write_queue)
      × ((step t c).1.stopped ≡ false)
unfolding step write_next
step-written (queues m) c live = queue_write-written c.write_queue m c refl live
step-written finishes c live = (
  append-nil (pop_front c.write_queue)
      ∙ sym (ground (arith, written-front (pop_front c.write_queue), live)),
  live,
)

-- While the client lives, its writes are started in the order of the sends, one behind the other:
-- what waits behind the front of the queue, followed by what is sent, is what is then written,
-- followed by what waits at the end.
pub run-written :
    (ts : List Transfer) (c : Client)
    → c.stopped ≡ false
    → pop_front c.write_queue ++ sent ts
      ≡ written (run ts c).0 ++ pop_front (run ts c).1.write_queue
unfolding run
run-written [] c live = append-nil (pop_front c.write_queue)
run-written (t ∷ ts) c live =
    let (now, live') = step-written t c live in
    let (es, c') = step t c in
    let (more, last) = run ts c' in
    rw (← sent_cons t ts, written-append es more)
      (append_chain (pop_front c.write_queue) (sent_by t) (written es) (pop_front c'.write_queue)
        (sent ts) (written more) (pop_front last.write_queue) now (run-written ts c' live'))
