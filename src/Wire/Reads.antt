-- ===== src/Wire/Reads.antt =====
-- A stream that arrives in reads of at most 128 bytes, as a connection hands it to the
-- interpreter.
use rsp.Base.{
  ℕ, suc, ◌+◌, ◌^◌, ◌≤◌, ◌<◌, ◌≡◌, refl, sym, ap, ◌∙◌, subst, inl, inr, Option, some, none, [], ◌∷◌,
  ◌++◌, Bytes, append_assoc, append-nil, length, drop, arith, List, map, true, false, le→ltb,
  Bool-cases, drop-append, All,
}
use rsp.Wire.Helper.{mget_be}
use rsp.Wire.Serializer.{incomplete, Meta, frame, destruct_buffer, header_size, max_payload_size}
use rsp.Wire.Framing.{destruct_buffer-frame, length-frame}
use rsp.Wire.Stream.{
  Drains, waits, cuts, with_more, then_dispatched, drain-Drains, Drains-append,
  Drains-append_rejected, Drains-settled, Drains-unique, take_all, cut_off, head, retrieve_tail,
}
use rsp.Wire.Interpreter.{Interpreter, Dispatch, Handled, read_size, handle_buffer, also_dispatched}

-- The read loop of a connection: each chunk that async_read_some delivers goes to
-- `handle_buffer`, and a rejected chunk ends the reading.
pub feed : Interpreter → List Bytes → Option Handled
feed c [] = some (record { accepted = true; state = c; dispatched = [] })
feed c (a ∷ rest) = elim (handle_buffer c a (length a)) [
  | none ↦ none
  | some h ↦ elim h.accepted [
    | false ↦ some h
    | true ↦ elim (feed h.state rest) [
      | none ↦ none
      | some k ↦ some (then_dispatched h.dispatched k)
    ]
  ]
]

abbrev pub concat : List Bytes → Bytes
concat [] = []
concat (a ∷ rest) = a ++ concat rest

abbrev pub Fits : List Bytes → Type 0
Fits = All (λ a. length a ≤ read_size)

handle_buffer-Drains :
    (c : Interpreter) (a : Bytes)
    → length a ≤ read_size
    → (h : Handled) × (handle_buffer c a (length a) ≡ some h) × Drains (with_more c a) h
unfolding handle_buffer
handle_buffer-Drains c a fits =
    rw (le→ltb _ _ fits, take_all a)
      (drain-Drains (suc (length (c.buffer ++ a))) (with_more c a) (omega arith))

again-rejected :
    (c : Interpreter) (a : Bytes) (rest : List Bytes) (h : Handled)
    → handle_buffer c a (length a) ≡ some h
    → h.accepted ≡ false
    → feed c (a ∷ rest) ≡ some h
unfolding feed
again-rejected c a rest h run stop = ground arith

again-accepted :
    (c : Interpreter) (a : Bytes) (rest : List Bytes) (h k : Handled)
    → handle_buffer c a (length a) ≡ some h
    → h.accepted ≡ true
    → feed h.state rest ≡ some k
    → feed c (a ∷ rest) ≡ some (then_dispatched h.dispatched k)
unfolding feed
again-accepted c a rest h k run go on = rw (run, feed) (rw go (rw on))

more-more : (c : Interpreter) (a b : Bytes) → with_more (with_more c a) b ≡ with_more c (a ++ b)
more-more c a b = ap (λ t. record c { buffer = t }) (append_assoc c.buffer a b)

-- Reads end, and give what one run over all the bytes gives.
pub feed-Drains :
    (c : Interpreter) (chunks : List Bytes)
    → Fits chunks
    → (destruct_buffer c.buffer).status ≡ incomplete
    → (h : Handled) × (feed c chunks ≡ some h) × Drains (with_more c (concat chunks)) h
unfolding feed
feed-Drains c [] fits e = (
  record { accepted = true; state = c; dispatched = [] },
  refl,
  subst
      (λ b.
        Drains (record c { buffer = b }) (record { accepted = true; state = c; dispatched = [] }))
      (sym (append-nil c.buffer)) (waits {c = c} e),
)
feed-Drains c (a ∷ rest) fits e =
    let (h, run, d) = handle_buffer-Drains c a fits.0 in
    elim (Bool-cases h.accepted) [
      | inl go ↦
          let (k, on, r) = feed-Drains h.state rest fits.1 (Drains-settled d go) in
          (
            then_dispatched h.dispatched k,
            again-accepted c a rest h k run go on,
            subst (λ t. Drains t (then_dispatched h.dispatched k)) (more-more c a (concat rest))
                (Drains-append (concat rest) d go r),
          )
      | inr stop ↦ (
        h,
        again-rejected c a rest h run stop,
        subst (λ t. Drains t h) (more-more c a (concat rest))
            (Drains-append_rejected (concat rest) d stop),
      )
    ]

-- However a stream is cut into reads of at most 128 bytes, the reads end with the same verdict,
-- the same messages dispatched in the same order and the same bytes kept, from an interpreter
-- that holds no whole frame.
pub feed_chunks :
    (c : Interpreter) (these those : List Bytes)
    → (destruct_buffer c.buffer).status ≡ incomplete
    → Fits these
    → Fits those
    → concat these ≡ concat those
    → (h : Handled) × (feed c these ≡ some h) × (feed c those ≡ some h)
feed_chunks c these those e f g same =
    let (h, run, d) = feed-Drains c these f e in
    let (k, run', d') = feed-Drains c those g e in
    let one : k ≡ h = Drains-unique d' (subst (λ b. Drains (with_more c b) h) same d) in
    (h, run, run' ∙ ap some one)

-- The bytes of a list of messages.
unfoldable pub encode : List (ℕ × Bytes) → Bytes
encode [] = []
encode ((type, payload) ∷ rest) = frame type payload ++ encode rest

abbrev pub Valid : List (ℕ × Bytes) → Type 0
Valid = All (λ m. (m.0 < 2 ^ 32) × (length m.1 ≤ max_payload_size))

abbrev pub dispatches : Option ℕ → List (ℕ × Bytes) → List Dispatch
dispatches l = map (λ m. record { type = m.0; payload = m.1; link = l })

drop-frame :
    (type : ℕ) (str rest : Bytes) → drop (header_size + length str) (frame type str ++ rest) ≡ rest
drop-frame type str rest = rw (← length-frame type str) (drop-append (frame type str) rest)

frame-Drains :
    (l : Option ℕ) (type : ℕ) (str rest : Bytes) {h : Handled}
    → type < 2 ^ 32
    → length str ≤ max_payload_size
    → Drains (record { link = l; buffer = rest }) h
    → Drains
        (record { link = l; buffer = frame type str ++ rest })
        (also_dispatched (record { type = type; payload = str; link = l }) h)
frame-Drains l type str rest {h} ht hl d =
    let c : Interpreter = record { link = l; buffer = frame type str ++ rest } in
    let m = destruct_buffer-frame type str rest ht hl in
    let size : (destruct_buffer c.buffer).size ≡ header_size + length str =
      ap (λ (t : Meta). t.size) m in
    let behind : cut_off c ≡ record { link = l; buffer = rest } =
      rw (retrieve_tail c.buffer (destruct_buffer c.buffer).size, size)
        (ap (λ b. record c { buffer = b }) (drop-frame type str rest)) in
    let front : head c ≡ record { type = type; payload = str; link = l } =
      ap (λ (t : Meta). record { type = t.type; payload = t.payload; link = l }) m in
    subst (λ t. Drains c (also_dispatched t h)) front
      (cuts {c = c} (ap (λ (t : Meta). t.status) m) (subst (λ t. Drains t h) (sym behind) d))

encode-Drains :
    (l : Option ℕ) (ms : List (ℕ × Bytes)) (tail : Bytes)
    → Valid ms
    → (destruct_buffer tail).status ≡ incomplete
    → Drains
        (record { link = l; buffer = encode ms ++ tail })
        (record {
          accepted = true;
          state = record { link = l; buffer = tail };
          dispatched = dispatches l ms;
        })
unfolding encode
encode-Drains l [] tail v e = waits e
encode-Drains l ((type, str) ∷ ms) tail v e =
    rw (append_assoc (frame type str) (encode ms) tail)
      (frame-Drains l type str (encode ms ++ tail) v.0.0 v.0.1 (encode-Drains l ms tail v.1 e))

-- A stream of valid messages, cut into reads of at most 128 bytes anywhere, is dispatched message
-- by message, in order, with each type and payload as sent; the start of a message that is still
-- on its way is kept.
pub feed-encode :
    (l : Option ℕ) (ms : List (ℕ × Bytes)) (tail : Bytes) (chunks : List Bytes)
    → Valid ms
    → (destruct_buffer tail).status ≡ incomplete
    → Fits chunks
    → concat chunks ≡ encode ms ++ tail
    → feed (record { link = l; buffer = [] }) chunks
      ≡ some (record {
        accepted = true;
        state = record { link = l; buffer = tail };
        dispatched = dispatches l ms;
      })
feed-encode l ms tail chunks v e fits same =
    let (h, run, d) =
      feed-Drains (record { link = l; buffer = [] }) chunks fits
        (unfold destruct_buffer mget_be in refl) in
    run ∙ ap some (Drains-unique d (rw same (encode-Drains l ms tail v e)))
