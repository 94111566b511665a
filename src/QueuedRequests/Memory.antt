-- ===== src/QueuedRequests/Memory.antt =====
-- What `prune` and `evict` keep of the remembered requests.
use rsp.Base.{
  ℕ, ◌-◌, ◌≤◌, ◌≡◌, refl, true, Option, none, some, [], ◌∷◌, ltb, leb, if◌then◌else◌, length, Key,
  nat_key, bytes_key, pair_key, arith,
}
use rsp.Base.Map.{
  Map, find, contains, find-erase, IsSorted, erase-IsSorted, length-erase, Above, find-Above,
}
use rsp.QueuedRequests.{prune_loop, oldest, evict}

-- What time leaves of a remembered key.
abbrev pub kept_until : ℕ → Option ℕ → Option ℕ
kept_until now none = none
kept_until now (some t) = if leb t now then none else some t

module _ {K : Type 0} ⦃o : Key K⦄ where
  -- Pruning.
  Above-prune_loop : (k : K) (now : ℕ) (m : Map K ℕ) → Above k m → Above k (prune_loop now m)
  unfolding prune_loop
  Above-prune_loop k now [] a = tt
  Above-prune_loop k now ((id, t) ∷ m) a = ground (arith, Above-prune_loop k now m a.1)

  pub prune_loop-IsSorted : (now : ℕ) (m : Map K ℕ) → IsSorted m → IsSorted (prune_loop now m)
  unfolding prune_loop
  prune_loop-IsSorted now [] s = tt
  prune_loop-IsSorted now ((id, t) ∷ m) s =
      ground (arith, prune_loop-IsSorted now m s.1, Above-prune_loop id now m s.0)

  pub length-prune_loop : (now : ℕ) (m : Map K ℕ) → length (prune_loop now m) ≤ length m
  unfolding prune_loop
  length-prune_loop now [] = omega arith
  length-prune_loop now (e ∷ m) = ground (arith, length-prune_loop now m)

  pub find-prune_loop :
      (now : ℕ) (id : K) (m : Map K ℕ)
      → IsSorted m
      → find id (prune_loop now m) ≡ kept_until now (find id m)
  unfolding find prune_loop
  find-prune_loop now id [] s = refl
  find-prune_loop now id ((j, t) ∷ m) s =
      ground (arith, find-prune_loop now id m s.1, find-Above id m, o.beq_iff id j)

  -- Eviction.
  contains-oldest : (e : K × ℕ) (m : Map K ℕ) → contains (oldest e m).0 (e ∷ m) ≡ true
  unfolding find oldest
  contains-oldest (k, t) [] = ground (arith, o.beq_iff k k)
  contains-oldest (k, t) ((j, u) ∷ m) =
      let best : K × ℕ = if ltb u t then (j, u) else (k, t) in
      ground (
        arith,
        o.beq_iff (oldest best m).0 k,
        o.beq_iff (oldest best m).0 j,
        contains-oldest best m,
        o.beq_iff k k,
        o.beq_iff j j,
      )

  pub length-evict : (m : Map K ℕ) → IsSorted m → length (evict m) ≤ length m - 1
  unfolding evict
  length-evict [] s = omega arith
  length-evict (e ∷ m) s =
      ground (arith, contains-oldest e m, length-erase (oldest e m).0 (e ∷ m) s)

  pub evict-IsSorted : (m : Map K ℕ) → IsSorted m → IsSorted (evict m)
  unfolding evict
  evict-IsSorted [] s = tt
  evict-IsSorted (e ∷ m) s = erase-IsSorted (oldest e m).0 (e ∷ m) s

  pub find-evict : (k : K) (m : Map K ℕ) → find k m ≡ none → find k (evict m) ≡ none
  unfolding evict
  find-evict k [] h = h
  find-evict k (e ∷ m) h = ground (arith, find-erase k (oldest e m).0 (e ∷ m))
