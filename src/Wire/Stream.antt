-- ===== src/Wire/Stream.antt =====
-- The interpreter over a stream: fuel, and independence of how the stream is cut into reads.
use rsp.Base.{
  ℕ, zero, suc, ◌+◌, ◌≤◌, ◌<◌, ◌≡◌, refl, sym, ap, subst, ◌⊎◌, inl, inr, some, [], ◌∷◌, ◌++◌, Bytes,
  length, take, drop, arith, leb, List, true, false, Bool-cases, drop_of_le, length-drop,
}
use rsp.Wire.Helper.{retrieve_v}
use rsp.Wire.Serializer.{ParseStatus, incomplete, complete, invalid, Meta, destruct_buffer}
use rsp.Wire.Framing.{Cut, wait, reject, frame_at, destruct_buffer-Cut, destruct_buffer-append}
use rsp.Wire.Interpreter.{Interpreter, Dispatch, Handled, drain, also_dispatched}

pub take_all : (x : Bytes) → take (length x) x ≡ x
take_all [] = refl
take_all (b ∷ x) = ap (◌∷◌ b) (take_all x)

drop_past : (n : ℕ) (x : Bytes) → length x ≤ n → drop n x ≡ []
drop_past zero [] h = refl
drop_past zero (b ∷ x) h = absurd (omega arith)
drop_past (suc n) [] h = refl
drop_past (suc n) (b ∷ x) h = drop_past n x (omega arith)

-- What the loop keeps behind a frame.
abbrev pub cut_off : Interpreter → Interpreter
cut_off c = record c {
  buffer = retrieve_v c.buffer (destruct_buffer c.buffer).size (length c.buffer);
}

abbrev pub head : Interpreter → Dispatch
head c =
    let m = destruct_buffer c.buffer in record { type = m.type; payload = m.payload; link = c.link }

abbrev pub with_more : Interpreter → Bytes → Interpreter
with_more c y = record c { buffer = c.buffer ++ y }

-- The rounds of the loop, without fuel.
pub data Drains : Interpreter → Handled → Type 0 where
  waits :
      {c : Interpreter}
      → (destruct_buffer c.buffer).status ≡ incomplete
      → Drains c (record { accepted = true; state = c; dispatched = [] })
  rejects :
      {c : Interpreter}
      → (destruct_buffer c.buffer).status ≡ invalid
      → Drains c (record { accepted = false; state = record c { buffer = [] }; dispatched = [] })
  cuts :
      {c : Interpreter} {h : Handled}
      → (destruct_buffer c.buffer).status ≡ complete
      → Drains (cut_off c) h
      → Drains c (also_dispatched (head c) h)

frame_size :
    (x : Bytes)
    → (destruct_buffer x).status ≡ complete
    → (12 ≤ (destruct_buffer x).size) × ((destruct_buffer x).size ≤ length x)
frame_size x e = go (destruct_buffer-Cut x)
  where
    go :
        Cut x (destruct_buffer x)
        → (12 ≤ (destruct_buffer x).size) × ((destruct_buffer x).size ≤ length x)
    go (wait m) = cc (ap (λ (m : Meta). m.status) m)
    go (reject n _ _ m) = cc (ap (λ (m : Meta). m.status) m)
    go (frame_at n type _ _ long _ m) = let s = ap (λ (m : Meta). m.size) m in omega (arith, s)

pub retrieve_tail : (x : Bytes) (n : ℕ) → retrieve_v x n (length x) ≡ drop n x
unfolding retrieve_v
retrieve_tail x n = elim (Bool-cases (leb (length x) n)) [
  | inl past ↦ rw past (sym (drop_past n x (ground arith)))
  | inr inside ↦ rw (inside, take_all x)
]

length-cut_off :
    (c : Interpreter)
    → (destruct_buffer c.buffer).status ≡ complete
    → length (cut_off c).buffer + 12 ≤ length c.buffer
length-cut_off c e =
    let m = destruct_buffer c.buffer in
    rw (retrieve_tail c.buffer m.size)
      (omega (arith, length-drop m.size c.buffer, frame_size c.buffer e))

Status-cases : (s : ParseStatus) → (s ≡ incomplete) ⊎ ((s ≡ complete) ⊎ (s ≡ invalid))
Status-cases incomplete = inl refl
Status-cases complete = inr (inl refl)
Status-cases invalid = inr (inr refl)

-- With more fuel than bytes the loop ends, and by its rounds.
pub drain-Drains :
    (fuel : ℕ) (c : Interpreter)
    → length c.buffer < fuel
    → (h : Handled) × (drain fuel c ≡ some h) × Drains c h
unfolding drain
drain-Drains zero c h = absurd (omega arith)
drain-Drains (suc fuel) c h = elim (Status-cases (destruct_buffer c.buffer).status) [
  | inl e ↦ (_, rw (e, drain), waits e)
  | inr (inl e) ↦
      let (k, run, d) = drain-Drains fuel (cut_off c) (omega (arith, length-cut_off c e)) in
      (also_dispatched (head c) k, rw (e, drain) (rw run), cuts e d)
  | inr (inr e) ↦ (_, rw (e, drain), rejects e)
]

-- The rounds determine the result.
pub Drains-unique : {c : Interpreter} {h k : Handled} → Drains c h → Drains c k → h ≡ k
Drains-unique (waits e) (waits f) = refl
Drains-unique (waits e) (rejects f) = cc
Drains-unique (waits e) (cuts f d) = cc
Drains-unique (rejects e) (waits f) = cc
Drains-unique (rejects e) (rejects f) = refl
Drains-unique (rejects e) (cuts f d) = cc
Drains-unique (cuts e d) (waits f) = cc
Drains-unique (cuts e d) (rejects f) = cc
Drains-unique (cuts {c = c} e d) (cuts f d') = ap (also_dispatched (head c)) (Drains-unique d d')

-- An accepted run leaves a buffer that holds no whole frame.
pub Drains-settled :
    {c : Interpreter} {h : Handled}
    → Drains c h
    → h.accepted ≡ true
    → (destruct_buffer h.state.buffer).status ≡ incomplete
Drains-settled (waits e) a = e
Drains-settled (rejects e) a = cc
Drains-settled (cuts e d) a = Drains-settled d a

-- The later result, behind what was dispatched before.
abbrev pub then_dispatched : List Dispatch → Handled → Handled
then_dispatched ds k = record k { dispatched = ds ++ k.dispatched }

cut_off-more :
    (c : Interpreter) (y : Bytes)
    → (destruct_buffer c.buffer).status ≡ complete
    → cut_off (with_more c y) ≡ with_more (cut_off c) y
cut_off-more c y e =
    let m = destruct_buffer-append c.buffer y (λ i. cc) in
    let n = (destruct_buffer c.buffer).size in
    rw m (
      rw (retrieve_tail (c.buffer ++ y) n, retrieve_tail c.buffer n)
        (ap (λ b. record c { buffer = b }) (drop_of_le n c.buffer y (frame_size c.buffer e).1)))

head-more :
    (c : Interpreter) (y : Bytes)
    → (destruct_buffer c.buffer).status ≡ complete
    → head (with_more c y) ≡ head c
head-more c y e = rw (destruct_buffer-append c.buffer y (λ i. cc))

cuts_more :
    (c : Interpreter) (y : Bytes) {h : Handled}
    → (destruct_buffer c.buffer).status ≡ complete
    → Drains (with_more (cut_off c) y) h
    → Drains (with_more c y) (also_dispatched (head c) h)
cuts_more c y {h} e d =
    let whole : (destruct_buffer (c.buffer ++ y)).status ≡ complete =
      rw (destruct_buffer-append c.buffer y (λ i. cc)) e in
    subst (λ t. Drains (with_more c y) (also_dispatched t h)) (head-more c y e)
      (cuts {c = with_more c y} whole (subst (λ t. Drains t h) (sym (cut_off-more c y e)) d))

-- More bytes behind an accepted run go on from where it stopped.
pub Drains-append :
    {c : Interpreter} {h k : Handled} (y : Bytes)
    → Drains c h
    → h.accepted ≡ true
    → Drains (with_more h.state y) k
    → Drains (with_more c y) (then_dispatched h.dispatched k)
Drains-append y (waits e) a d = d
Drains-append y (rejects e) a d = cc
Drains-append {k = k} y (cuts {c = c} {h = h} e r) a d = cuts_more c y e (Drains-append y r a d)

-- More bytes behind a rejected run change nothing.
pub Drains-append_rejected :
    {c : Interpreter} {h : Handled} (y : Bytes)
    → Drains c h
    → h.accepted ≡ false
    → Drains (with_more c y) h
Drains-append_rejected y (waits e) a = cc
Drains-append_rejected y (rejects {c = c} e) a =
    rejects {c = with_more c y} (rw (destruct_buffer-append c.buffer y (λ i. cc)) e)
Drains-append_rejected y (cuts {c = c} {h = h} e r) a =
    cuts_more c y e (Drains-append_rejected y r a)
