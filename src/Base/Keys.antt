-- ===== src/Base/Keys.antt =====
-- Keys of the source's ordered maps: numbers and addresses, byte strings, and pairs of keys.
use Prim.Native.Nat.{ℕ}
use mathlib.Core.Path.{◌≡◌, refl}
use mathlib.Core.Logic.{◌↔◌}
use mathlib.Core.Bool.{Bool, true, false, ◌&&◌}
use mathlib.Core.List.{List, [], ◌∷◌}
use native.Mathlib.Omega.{arith}
use rsp.Base.Tests.{◌==◌, ltb, if◌then◌else◌, ==_iff}

pub record Key (K : Type 0) : Type 0 where
  pub beq : K → K → Bool
  pub lt : K → K → Bool
  pub beq_iff : (a b : K) → (beq a b ≡ true) ↔ (a ≡ b)
  pub lt_irrefl : (a : K) → lt a a ≡ false
  pub lt_trans : (a b c : K) → lt a b ≡ true → lt b c ≡ true → lt a c ≡ true
  pub lt_total : (a b : K) → beq a b ≡ false → lt a b ≡ false → lt b a ≡ true

pub ltb_irrefl : (a : ℕ) → ltb a a ≡ false
ltb_irrefl a = ground arith

pub ltb_trans : (a b c : ℕ) → ltb a b ≡ true → ltb b c ≡ true → ltb a c ≡ true
ltb_trans a b c h k = ground arith

pub ltb_total : (a b : ℕ) → (a == b) ≡ false → ltb a b ≡ false → ltb b a ≡ true
ltb_total a b h k = ground arith

instance abbrev pub nat_key : Key ℕ
nat_key = record {
  beq = ◌==◌;
  lt = ltb;
  beq_iff = ==_iff;
  lt_irrefl = ltb_irrefl;
  lt_trans = ltb_trans;
  lt_total = ltb_total;
}

-- A `std::string` is its bytes, compared from the left.
abbrev pub Bytes : Type 0
Bytes = List ℕ

unfoldable pub bytes_beq : Bytes → Bytes → Bool
bytes_beq [] [] = true
bytes_beq [] (b ∷ bs) = false
bytes_beq (a ∷ as') [] = false
bytes_beq (a ∷ as') (b ∷ bs) = (a == b) && bytes_beq as' bs

unfoldable pub bytes_lt : Bytes → Bytes → Bool
bytes_lt [] [] = false
bytes_lt [] (b ∷ bs) = true
bytes_lt (a ∷ as') [] = false
bytes_lt (a ∷ as') (b ∷ bs) = if ltb a b then true else (if a == b then bytes_lt as' bs else false)

pub bytes_beq_iff : (a b : Bytes) → (bytes_beq a b ≡ true) ↔ (a ≡ b)
unfolding bytes_beq
bytes_beq_iff [] [] = ground arith
bytes_beq_iff [] (b ∷ bs) = ground arith
bytes_beq_iff (a ∷ as') [] = ground arith
bytes_beq_iff (a ∷ as') (b ∷ bs) = ground (arith, bytes_beq_iff as' bs)

pub bytes_lt_irrefl : (a : Bytes) → bytes_lt a a ≡ false
unfolding bytes_lt
bytes_lt_irrefl [] = refl
bytes_lt_irrefl (a ∷ as') = ground (arith, bytes_lt_irrefl as')

pub bytes_lt_trans :
    (a b c : Bytes) → bytes_lt a b ≡ true → bytes_lt b c ≡ true → bytes_lt a c ≡ true
unfolding bytes_lt
bytes_lt_trans [] [] c h k = ground arith
bytes_lt_trans [] (b ∷ bs) [] h k = ground arith
bytes_lt_trans [] (b ∷ bs) (c ∷ cs) h k = refl
bytes_lt_trans (a ∷ as') [] c h k = ground arith
bytes_lt_trans (a ∷ as') (b ∷ bs) [] h k = ground arith
bytes_lt_trans (a ∷ as') (b ∷ bs) (c ∷ cs) h k = ground (arith, bytes_lt_trans as' bs cs)

pub bytes_lt_total :
    (a b : Bytes) → bytes_beq a b ≡ false → bytes_lt a b ≡ false → bytes_lt b a ≡ true
unfolding bytes_beq bytes_lt
bytes_lt_total [] [] h k = ground arith
bytes_lt_total [] (b ∷ bs) h k = ground arith
bytes_lt_total (a ∷ as') [] h k = refl
bytes_lt_total (a ∷ as') (b ∷ bs) h k = ground (arith, bytes_lt_total as' bs)

instance abbrev pub bytes_key : Key Bytes
bytes_key = record {
  beq = bytes_beq;
  lt = bytes_lt;
  beq_iff = bytes_beq_iff;
  lt_irrefl = bytes_lt_irrefl;
  lt_trans = bytes_lt_trans;
  lt_total = bytes_lt_total;
}

-- `std::pair` compares its first parts, then its second parts.
module _ {A B : Type 0} ⦃a : Key A⦄ ⦃b : Key B⦄ where
  unfoldable pub pair_beq : A × B → A × B → Bool
  pair_beq (x, y) (z, w) = a.beq x z && b.beq y w

  unfoldable pub pair_lt : A × B → A × B → Bool
  pair_lt (x, y) (z, w) = if a.lt x z then true else (if a.beq x z then b.lt y w else false)

  pub pair_beq_iff : (p q : A × B) → (pair_beq p q ≡ true) ↔ (p ≡ q)
  unfolding pair_beq
  pair_beq_iff (x, y) (z, w) = ground (arith, a.beq_iff x z, b.beq_iff y w)

  pub pair_lt_irrefl : (p : A × B) → pair_lt p p ≡ false
  unfolding pair_lt
  pair_lt_irrefl (x, y) = ground (arith, a.lt_irrefl x, b.lt_irrefl y)

  pub pair_lt_trans : (p q r : A × B) → pair_lt p q ≡ true → pair_lt q r ≡ true → pair_lt p r ≡ true
  unfolding pair_lt
  pair_lt_trans (x, y) (z, w) (u, v) h k =
      ground
        (arith, a.beq_iff x z, a.beq_iff z u, a.beq_iff x u, a.lt_trans x z u, b.lt_trans y w v)

  pub pair_lt_total :
      (p q : A × B) → pair_beq p q ≡ false → pair_lt p q ≡ false → pair_lt q p ≡ true
  unfolding pair_beq pair_lt
  pair_lt_total (x, y) (z, w) h k =
      ground (arith, a.beq_iff x z, a.beq_iff z x, a.lt_irrefl x, a.lt_total x z, b.lt_total y w)

  instance abbrev pub pair_key : Key (A × B)
  pair_key = record {
    beq = pair_beq;
    lt = pair_lt;
    beq_iff = pair_beq_iff;
    lt_irrefl = pair_lt_irrefl;
    lt_trans = pair_lt_trans;
    lt_total = pair_lt_total;
  }
