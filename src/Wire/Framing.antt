-- ===== src/Wire/Framing.antt =====
-- A frame is cut off a buffer whole, and bytes that arrive later do not change the cut.
use rsp.Base.{
  false, ℕ, ◌+◌, ◌-◌, ◌^◌, ◌≤◌, ◌<◌, ◌≡◌, refl, sym, ap, ◌∙◌, ◌≢◌, inl, inr, some, [], ◌++◌, Bytes,
  append_assoc, length, length-append, take-append, drop-append, take, drop, arith, ltb, lt→ltb,
  le→ltb, ltb→lt, ltb→le, Option-cases, Bool-cases, take_of_le, drop_of_le, length-drop,
}
use rsp.Wire.Helper.{mset_loop, mset_be, mget_be}
use rsp.Wire.Serializer.{
  incomplete, complete, Meta, no_meta, invalid_meta, frame, destruct_buffer, destruct_rest,
  header_size, max_payload_size,
}
use rsp.Wire.RoundTrip.{
  mset_loop_acc, length-mset_be, mget_be-mset_be, mget_be-append, mget_be_long,
}

-- The metadata of a complete frame.
abbrev pub frame_meta : ℕ → Bytes → Meta
frame_meta type str = record {
  status = complete;
  size = header_size + length str;
  payload_size = length str;
  type = type;
  payload = str;
}

-- The header of a frame, as its two integers.
abbrev header : ℕ → ℕ → Bytes
header n type = mset_loop 8 n [] ++ mset_loop 4 type []

length-header : (n type : ℕ) → length (header n type) ≡ 12
length-header n type = omega (
  arith,
  length-append (mset_loop 8 n []) (mset_loop 4 type []),
  length-mset_be 8 n,
  length-mset_be 4 type,
)

-- Proofs see a frame as the header's two integers and the payload.
frame-header : (type : ℕ) (str : Bytes) → frame type str ≡ header (length str) type ++ str
unfolding frame mset_be
frame-header type str = rw (mset_loop_acc 4 type (mset_loop 8 (length str) []))

pub length-frame : (type : ℕ) (str : Bytes) → length (frame type str) ≡ 12 + length str
length-frame type str =
    rw (frame-header type str)
      (omega (arith, length-append (header (length str) type) str, length-header (length str) type))

frame-length_field :
    (type : ℕ) (str rest : Bytes)
    → length str < 2 ^ 64
    → mget_be 8 (frame type str ++ rest) 0 ≡ some (length str)
unfolding mset_be
frame-length_field type str rest h =
    rw
      (
        frame-header type str,
        append_assoc (mset_loop 8 (length str) []) (mset_loop 4 type []) str,
        append_assoc (mset_loop 8 (length str) []) (mset_loop 4 type [] ++ str) rest,
      )
      (mget_be-mset_be 8 (length str) [] _ h)

frame_type_field :
    (type : ℕ) (str rest : Bytes) → type < 2 ^ 32 → mget_be 4 (frame type str ++ rest) 8 ≡ some type
unfolding frame
frame_type_field type str rest h =
    let pre = mset_be 8 [] (length str) in
    let at : length pre ≡ 8 = unfold mset_be in length-mset_be 8 (length str) in
    let read = mget_be-mset_be 4 type pre (str ++ rest) h in
    rw (append_assoc (mset_be 4 pre type) str rest) (rw at at read)

length-frame_rest :
    (type : ℕ) (str rest : Bytes) → length (frame type str ++ rest) ≡ 12 + length str + length rest
length-frame_rest type str rest =
    omega (arith, length-append (frame type str) rest, length-frame type str)

frame_payload :
    (type : ℕ) (str rest : Bytes)
    → take (header_size + length str - header_size) (drop header_size (frame type str ++ rest))
      ≡ str
frame_payload type str rest =
    let n : header_size + length str - header_size ≡ length str = omega arith in
    let h : length (header (length str) type) ≡ 12 = length-header (length str) type in
    let cut = drop-append (header (length str) type) (str ++ rest) in
    rw (n, frame-header type str, append_assoc (header (length str) type) str rest)
      (rw (rw h at cut) (take-append str rest))

-- What `destruct_buffer` can say of a buffer, with what it then holds.
pub data Cut (x : Bytes) (m : Meta) : Type 0 where
  wait : m ≡ no_meta → Cut x m
  reject : (n : ℕ) → mget_be 8 x 0 ≡ some n → max_payload_size < n → m ≡ invalid_meta → Cut x m
  frame_at :
      (n type : ℕ)
      → mget_be 8 x 0 ≡ some n
      → n ≤ max_payload_size
      → 12 + n ≤ length x
      → mget_be 4 x 8 ≡ some type
      → m ≡ record {
        status = complete;
        size = 12 + n;
        payload_size = n;
        type = type;
        payload = take (12 + n - 12) (drop 12 x);
      }
      → Cut x m

destruct_rest-Cut :
    (x : Bytes) (n : ℕ) → mget_be 8 x 0 ≡ some n → n ≤ max_payload_size → Cut x (destruct_rest x n)
unfolding destruct_rest
destruct_rest-Cut x n e small = elim (Bool-cases (ltb (length x) (header_size + n))) [
  | inl short ↦ rw short (wait refl)
  | inr long ↦
      let enough : 12 + n ≤ length x = ltb→le _ _ long in
      let (type, read) = mget_be_long 4 8 x (omega arith) in
      rw (long, read) (frame_at n type e small enough read refl)
]

-- Every buffer is one of: too short for its frame, too large a frame, or a frame at the front.
pub destruct_buffer-Cut : (x : Bytes) → Cut x (destruct_buffer x)
unfolding destruct_buffer
destruct_buffer-Cut x = elim (Option-cases (mget_be 8 x 0)) [
  | inl e ↦ rw (e, destruct_buffer) (wait refl)
  | inr (n, e) ↦ elim (Bool-cases (ltb max_payload_size n)) [
    | inl big ↦ rw (e, destruct_buffer) (rw big (reject n e (ltb→lt _ _ big) refl))
    | inr small ↦ rw (e, destruct_buffer) (rw small (destruct_rest-Cut x n e (ltb→le _ _ small)))
  ]
]

long_of_some :
    (size offset : ℕ) (x : Bytes) {v : ℕ}
    → mget_be size x offset ≡ some v
    → offset + size ≤ length x
unfolding mget_be
long_of_some size offset x h = ground arith

destruct_large :
    (x : Bytes) (n : ℕ)
    → mget_be 8 x 0 ≡ some n
    → max_payload_size < n
    → destruct_buffer x ≡ invalid_meta
unfolding destruct_buffer
destruct_large x n e big = rw (e, destruct_buffer) (rw (lt→ltb _ _ big))

destruct_ready :
    (x : Bytes) (n type : ℕ)
    → mget_be 8 x 0 ≡ some n
    → n ≤ max_payload_size
    → 12 + n ≤ length x
    → mget_be 4 x 8 ≡ some type
    → destruct_buffer x ≡ record {
      status = complete;
      size = 12 + n;
      payload_size = n;
      type = type;
      payload = take (12 + n - 12) (drop 12 x);
    }
unfolding destruct_buffer
destruct_ready x n type e small long t =
    let room : ltb (length x) (12 + n) ≡ false = le→ltb _ _ long in
    rw (e, destruct_buffer) (rw (le→ltb _ _ small) (rw room (rw (t, destruct_rest))))

-- A complete frame at the front of a buffer is cut off with its type and payload, whatever
-- follows it.
pub destruct_buffer-frame :
    (type : ℕ) (str rest : Bytes)
    → type < 2 ^ 32
    → length str ≤ max_payload_size
    → destruct_buffer (frame type str ++ rest) ≡ frame_meta type str
destruct_buffer-frame type str rest ht hl =
    destruct_ready (frame type str ++ rest) (length str) type
      (frame-length_field type str rest (omega arith)) hl
      (omega (arith, length-frame_rest type str rest)) (frame_type_field type str rest ht)
    ∙ ap (λ s. record (frame_meta type str) { payload = s }) (frame_payload type str rest)

payload-append :
    (x y : Bytes) (n : ℕ)
    → 12 + n ≤ length x
    → take (12 + n - 12) (drop 12 (x ++ y)) ≡ take (12 + n - 12) (drop 12 x)
payload-append x y n long =
    rw (drop_of_le 12 x y (omega arith))
      (take_of_le (12 + n - 12) (drop 12 x) y (omega (arith, length-drop 12 x)))

-- A verdict other than "incomplete" stands, whatever bytes arrive behind.
pub destruct_buffer-append :
    (x y : Bytes)
    → (destruct_buffer x).status ≢ incomplete
    → destruct_buffer (x ++ y) ≡ destruct_buffer x
destruct_buffer-append x y settled = go (destruct_buffer-Cut x)
  where
    go : Cut x (destruct_buffer x) → destruct_buffer (x ++ y) ≡ destruct_buffer x
    go (wait e) = absurd (settled (ap (λ (m : Meta). m.status) e))
    go (reject n e big m) =
        destruct_large (x ++ y) n (mget_be-append 8 0 x y (long_of_some 8 0 x e) ∙ e) big ∙ sym m
    go (frame_at n type e small long t m) =
        destruct_ready (x ++ y) n type (mget_be-append 8 0 x y (long_of_some 8 0 x e) ∙ e) small
          (omega (arith, length-append x y)) (mget_be-append 4 8 x y (omega arith) ∙ t)
        ∙ ap
            (λ p. record {
              status = complete;
              size = 12 + n;
              payload_size = n;
              type = type;
              payload = p;
            })
            (payload-append x y n long)
        ∙ sym m
