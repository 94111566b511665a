-- ===== src/Base/Map.antt =====
-- `std::map` as an association list in the order of its keys, which is the order of iteration.
use Prim.Native.Nat.{ℕ, suc, ◌+◌}
use mathlib.Core.Path.{◌≡◌, refl}
use mathlib.Core.Bool.{Bool, true}
use mathlib.Core.Option.{Option, none, some}
use mathlib.Core.List.{List, [], ◌∷◌}
use native.Mathlib.Omega.{arith}
use rsp.Base.Tests.{if◌then◌else◌, is_some}
use rsp.Base.Lists.{length}
use rsp.Base.Keys.{Key}

abbrev pub Map : Type 0 → Type 0 → Type 0
Map K V = List (K × V)

module _ {K V : Type 0} ⦃o : Key K⦄ where
  -- m.find(k)
  unfoldable pub find : K → Map K V → Option V
  find k [] = none
  find k ((j, w) ∷ m) = if o.beq k j then some w else find k m

  -- m[k] = v
  unfoldable pub insert : K → V → Map K V → Map K V
  insert k v [] = (k, v) ∷ []
  insert k v ((j, w) ∷ m) =
      if o.beq k j
      then (k, v) ∷ m
      else (if o.lt k j then (k, v) ∷ (j, w) ∷ m else (j, w) ∷ insert k v m)

  -- m.erase(k)
  unfoldable pub erase : K → Map K V → Map K V
  erase k [] = []
  erase k ((j, w) ∷ m) = let rest = erase k m in if o.beq k j then rest else (j, w) ∷ rest

  abbrev pub contains : K → Map K V → Bool
  contains k m = is_some (find k m)

  pub find-insert :
      (j k : K) (v : V) (m : Map K V)
      → find j (insert k v m) ≡ (if o.beq j k then some v else find j m)
  unfolding find insert
  find-insert j k v [] = refl
  find-insert j k v ((i, w) ∷ m) =
      ground (arith, o.beq_iff j k, o.beq_iff k i, o.beq_iff j i, find-insert j k v m)

  pub find-erase :
      (j k : K) (m : Map K V) → find j (erase k m) ≡ (if o.beq j k then none else find j m)
  unfolding find erase
  find-erase j k [] = ground arith
  find-erase j k ((i, w) ∷ m) =
      ground (arith, o.beq_iff j k, o.beq_iff k i, o.beq_iff j i, find-erase j k m)

  -- Every key lies above `k`.
  abbrev pub Above : K → Map K V → Type 0
  Above k [] = Unit {0}
  Above k ((j, w) ∷ m) = (o.lt k j ≡ true) × Above k m

  -- The keys rise strictly, as a `std::map` keeps them.
  abbrev pub IsSorted : Map K V → Type 0
  IsSorted [] = Unit {0}
  IsSorted ((j, w) ∷ m) = Above j m × IsSorted m

  Above-trans : (k j : K) (m : Map K V) → o.lt k j ≡ true → Above j m → Above k m
  Above-trans k j [] h a = tt
  Above-trans k j ((i, w) ∷ m) h a = (o.lt_trans k j i h a.0, Above-trans k j m h a.1)

  Above-insert :
      (k j : K) (v : V) (m : Map K V) → o.lt k j ≡ true → Above k m → Above k (insert j v m)
  unfolding insert
  Above-insert k j v [] h a = (h, tt)
  Above-insert k j v ((i, w) ∷ m) h a =
      ground (arith, Above-insert k j v m h a.1, Above-trans k j m h)

  Above-erase : (k j : K) (m : Map K V) → Above k m → Above k (erase j m)
  unfolding erase
  Above-erase k j [] a = tt
  Above-erase k j ((i, w) ∷ m) a = ground (arith, Above-erase k j m a.1)

  pub insert-IsSorted : (k : K) (v : V) (m : Map K V) → IsSorted m → IsSorted (insert k v m)
  unfolding insert
  insert-IsSorted k v [] s = (tt, tt)
  insert-IsSorted k v ((j, w) ∷ m) s = ground (
    arith,
    o.beq_iff k j,
    o.lt_total k j,
    Above-trans k j m,
    Above-insert j k v m,
    insert-IsSorted k v m s.1,
  )

  pub erase-IsSorted : (k : K) (m : Map K V) → IsSorted m → IsSorted (erase k m)
  unfolding erase
  erase-IsSorted k [] s = tt
  erase-IsSorted k ((j, w) ∷ m) s = ground (arith, Above-erase j k m s.0, erase-IsSorted k m s.1)

  pub find-Above : (k : K) (m : Map K V) → Above k m → find k m ≡ none
  unfolding find
  find-Above k [] a = refl
  find-Above k ((j, w) ∷ m) a = ground (arith, o.beq_iff k j, o.lt_irrefl k, find-Above k m a.1)

  pub erase_absent : (k : K) (m : Map K V) → find k m ≡ none → erase k m ≡ m
  unfolding find erase
  erase_absent k [] h = refl
  erase_absent k ((j, w) ∷ m) h = ground (arith, erase_absent k m)

  -- The size grows by one exactly when the key is new.
  pub length-insert :
      (k : K) (v : V) (m : Map K V)
      → IsSorted m
      → length (insert k v m) ≡ (if contains k m then length m else suc (length m))
  unfolding insert find
  length-insert k v [] s = refl
  length-insert k v ((j, w) ∷ m) s =
      ground (arith, o.beq_iff k j, find-Above k m, Above-trans k j m, length-insert k v m s.1)

  -- The size falls by one exactly when the key was there.
  pub length-erase :
      (k : K) (m : Map K V)
      → IsSorted m
      → length m ≡ (if contains k m then suc (length (erase k m)) else length (erase k m))
  unfolding erase find
  length-erase k [] s = refl
  length-erase k ((j, w) ∷ m) s =
      ground (arith, o.beq_iff k j, find-Above k m, erase_absent k m, length-erase k m s.1)

-- The sum of a weight over the values.
abbrev pub total : {K V : Type 0} → (V → ℕ) → Map K V → ℕ
total w [] = 0
total w ((k, v) ∷ m) = w v + total w m

abbrev pub weigh : {V : Type 0} → (V → ℕ) → Option V → ℕ
weigh w none = 0
weigh w (some v) = w v

module _ {K V : Type 0} ⦃o : Key K⦄ (w : V → ℕ) where
  pub total-insert_new :
      (k : K) (v : V) (m : Map K V) → find k m ≡ none → total w (insert k v m) ≡ w v + total w m
  unfolding insert find
  total-insert_new k v [] h = omega arith
  total-insert_new k v ((j, u) ∷ m) h = ground (arith, total-insert_new k v m)

  pub total-erase :
      (k : K) (m : Map K V) → IsSorted m → total w m ≡ weigh w (find k m) + total w (erase k m)
  unfolding erase find
  total-erase k [] s = omega arith
  total-erase k ((j, u) ∷ m) s =
      ground (arith, o.beq_iff k j, find-Above k m, erase_absent k m, total-erase k m s.1)
