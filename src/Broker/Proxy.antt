-- ===== src/Broker/Proxy.antt =====
-- event_broker::forward: one message, of one or more frames, from a socket to another.
use rsp.Base.{◌≡◌, refl, Bool, true, false, List, [], ◌∷◌, ◌++◌, if◌then◌else◌, Bytes, arith}

-- A frame, and whether more frames of its message follow.
pub record Frame : Type 0 where
  pub bytes : Bytes
  pub more : Bool

-- The frames that are sent, with ZMQ_SNDMORE or without, and those that the source still has.
unfoldable pub forward : List Frame → List Frame × List Frame
forward [] = ([], [])
forward (f ∷ fs) =
    let rest = forward fs in
    if f.more then (let (out, left) = rest in (f ∷ out, left)) else (f ∷ [], fs)

-- A message of some frames and a last one.
abbrev pub message : List Bytes → Bytes → List Frame
message [] last = record { bytes = last; more = false } ∷ []
message (b ∷ bs) last = record { bytes = b; more = true } ∷ message bs last

abbrev pub messages : List (List Bytes × Bytes) → List Frame
messages [] = []
messages ((bs, last) ∷ ms) = message bs last ++ messages ms

-- However many messages the source has, a call forwards the first one, whole and unchanged, and
-- leaves the others.
pub forward-message :
    (bs : List Bytes) (last : Bytes) (ms : List (List Bytes × Bytes))
    → forward (messages ((bs, last) ∷ ms)) ≡ (message bs last, messages ms)
unfolding forward
forward-message [] last ms = refl
forward-message (b ∷ bs) last ms = ground (arith, forward-message bs last ms)
