-- ===== src/Wire/Bits.antt =====
-- `|` puts a byte below a shifted value: the step of `mget_be`.
use Prim.Native.Nat.{digits, bit_or, bit_or-bitwise, max}
use native.Mathlib.Nat.{pow-suc}
use rsp.Base.{ℕ, zero, suc, ◌+◌, ◌*◌, ◌/◌, ◌^◌, ◌≤◌, ◌<◌, ◌≡◌, refl, ap, ◌∙◌, arith}

shift_suc : (q k : ℕ) → q * 2 ^ suc k ≡ q * 2 ^ k * 2
shift_suc q k = omega (arith, ap (λ (t : ℕ). q * t) (pow-suc 2 k))

-- The recursion on binary digits that `bit_or` stands for, with fuel `n`.
or_digits : (n k q a r : ℕ) → a ≡ q * 2 ^ k → a ≤ n → r < 2 ^ k → digits (λ b. b) max n a r ≡ a + r
or_digits zero k q zero r e h fits = omega arith
or_digits zero k q (suc a) r e h fits = absurd (omega arith)
or_digits (suc n) k q zero r e h fits = omega arith
or_digits (suc n) zero q (suc a) r e h fits = omega (
  arith,
  or_digits n zero (suc a / 2) (suc a / 2) (r / 2) (omega arith) (omega arith) (omega arith),
)
or_digits (suc n) (suc k) q (suc a) r e h fits = omega (
  arith,
  shift_suc q k,
  or_digits n k q (suc a / 2) (r / 2) (omega (arith, shift_suc q k)) (omega arith)
      (omega (arith, pow-suc 2 k)),
  pow-suc 2 k,
)

pub bit_or_byte : (q b : ℕ) → b < 256 → bit_or (q * 256) b ≡ q * 256 + b
bit_or_byte q b h =
    bit_or-bitwise (q * 256) b ∙ or_digits (q * 256) 8 q (q * 256) b refl (omega arith) h
