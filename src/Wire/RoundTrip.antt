-- ===== src/Wire/RoundTrip.antt =====
-- Integers and frames read back as they were written.
use Prim.Native.Nat.{bit_or}
use native.Mathlib.Nat.{
  div-div-eq-div-mul, div-le_self, div-eq_of_lt, mod-eq_of_lt, pow-le-pow_right,
}
use native.Mathlib.Numerals.{towards_suc}
use rsp.Base.{
  ℕ, zero, suc, ◌+◌, ◌*◌, ◌/◌, ◌%◌, ◌^◌, ◌≤◌, ◌<◌, ◌≡◌, refl, sym, ap, ◌∙◌, some, [], ◌∷◌, ◌++◌,
  Bytes, append_assoc, append-nil, length, length-append, drop-append, drop_of_le, length-drop,
  drop, none, arith,
}
use rsp.Wire.Helper.{mset_loop, mset_be, mget_loop, mget_be}
use rsp.Wire.Bits.{bit_or_byte}

pow_byte : (r : ℕ) → 2 ^ (suc r * 8) ≡ 2 ^ (r * 8) * 256
pow_byte r = let e : suc r * 8 ≡ r * 8 + 8 = omega arith in rw e (simp towards_suc (omega arith))

pub mset_loop_acc : (n v : ℕ) (dest : Bytes) → mset_loop n v dest ≡ dest ++ mset_loop n v []
unfolding mset_loop
mset_loop_acc zero v dest = sym (append-nil dest)
mset_loop_acc (suc n) v dest =
    mset_loop_acc n v _
    ∙ append_assoc dest _ _
    ∙ ap (◌++◌ dest) (sym (mset_loop_acc n v (v / 2 ^ (n * 8) % 256 ∷ [])))

pub length-mset_be : (n v : ℕ) → length (mset_loop n v []) ≡ n
unfolding mset_loop
length-mset_be zero v = refl
length-mset_be (suc n) v =
    omega (arith, ap length (mset_loop_acc n v (v / 2 ^ (n * 8) % 256 ∷ [])), length-mset_be n v)

pub pow_le_pow : (k n : ℕ) → k ≤ n → 2 ^ (k * 8) ≤ 2 ^ (n * 8)
pow_le_pow k n h = pow-le-pow_right (omega arith) (omega arith)

-- One round of the loop shifts the next byte in, without loss where the value fits `size` bytes.
shift_in :
    (size r v : ℕ)
    → suc r ≤ size
    → v < 2 ^ (size * 8)
    → bit_or (v / 2 ^ (suc r * 8) * 256 % 2 ^ (size * 8)) (v / 2 ^ (r * 8) % 256) ≡ v / 2 ^ (r * 8)
shift_in size r v h fits =
    let high : ℕ = v / 2 ^ (r * 8) in
    let same : v / 2 ^ (suc r * 8) ≡ high / 256 =
      rw (pow_byte r) (sym (div-div-eq-div-mul v (2 ^ (r * 8)) 256)) in
    let small : high ≤ v = div-le_self v (2 ^ (r * 8)) in
    let keeps : high / 256 * 256 % 2 ^ (size * 8) ≡ high / 256 * 256 = mod-eq_of_lt (omega arith) in
    rw (same, keeps) (bit_or_byte (high / 256) (high % 256) (omega arith) ∙ omega arith)

mget-mset_loop :
    (size left v : ℕ) (rest : Bytes)
    → left ≤ size
    → v < 2 ^ (size * 8)
    → mget_loop size left (mset_loop left v [] ++ rest) (v / 2 ^ (left * 8)) ≡ v
unfolding mset_loop mget_loop
mget-mset_loop size zero v rest h fits = omega arith
mget-mset_loop size (suc left) v rest h fits =
    rw (mset_loop_acc left v (v / 2 ^ (left * 8) % 256 ∷ []))
      (rw (shift_in size left v h fits) (mget-mset_loop size left v rest (omega arith) fits))

start_value : (size v : ℕ) → v < 2 ^ (size * 8) → v / 2 ^ (size * 8) ≡ 0
start_value size v fits = div-eq_of_lt fits

mget_loop_start :
    (size v : ℕ) (rest : Bytes)
    → v < 2 ^ (size * 8)
    → mget_loop size size (mset_loop size v [] ++ rest) 0 ≡ v
mget_loop_start size v rest fits =
    let run = mget-mset_loop size size v rest (omega arith) fits in
    rw (start_value size v fits) at run

-- Reading needs as many bytes as the width from the offset on.
pub mget_be_in_range :
    (size : ℕ) (pre body : Bytes)
    → size ≤ length body
    → mget_be size (pre ++ body) (length pre) ≡ some (mget_loop size size body 0)
unfolding mget_be
mget_be_in_range size pre body h =
    rw (drop-append pre body) (ground (arith, length-append pre body))

-- What `mset_be` writes after any prefix, `mget_be` reads at that offset, whatever follows.
pub mget_be-mset_be :
    (size v : ℕ) (pre rest : Bytes)
    → v < 2 ^ (size * 8)
    → mget_be size (mset_be size pre v ++ rest) (length pre) ≡ some v
unfolding mset_be
mget_be-mset_be size v pre rest fits =
    let body = mset_loop size v [] in
    let long : size ≤ length (body ++ rest) =
      omega (arith, length-append body rest, length-mset_be size v) in
    rw (mset_loop_acc size v pre, append_assoc pre body rest)
      (mget_be_in_range size pre (body ++ rest) long ∙ ap some (mget_loop_start size v rest fits))

-- Bytes behind the integer do not change what is read.
mget_loop-append :
    (size left : ℕ) (x y : Bytes) (v : ℕ)
    → left ≤ length x
    → mget_loop size left (x ++ y) v ≡ mget_loop size left x v
unfolding mget_loop
mget_loop-append size zero x y v h = refl
mget_loop-append size (suc left) [] y v h = absurd (omega arith)
mget_loop-append size (suc left) (b ∷ x) y v h = mget_loop-append size left x y _ (omega arith)

pub mget_be-append :
    (size offset : ℕ) (x y : Bytes)
    → offset + size ≤ length x
    → mget_be size (x ++ y) offset ≡ mget_be size x offset
unfolding mget_be
mget_be-append size offset x y h = rw (drop_of_le offset x y (omega arith)) (
    ground (
      arith,
      length-append x y,
      length-drop offset x,
      mget_loop-append size size (drop offset x) y 0,
    ))

pub mget_be_short :
    (size offset : ℕ) (x : Bytes) → length x < offset + size → mget_be size x offset ≡ none
unfolding mget_be
mget_be_short size offset x h = ground arith

pub mget_be_long :
    (size offset : ℕ) (x : Bytes)
    → offset + size ≤ length x
    → (v : ℕ) × (mget_be size x offset ≡ some v)
unfolding mget_be
mget_be_long size offset x h = (mget_loop size size (drop offset x) 0, ground arith)
