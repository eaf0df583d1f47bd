-- ===== src/Circuit/Eviction.antt =====
-- `evict_if_needed`: what a full map of hosts forgets, and what it never forgets.
use corx.Circuit.{
  HostCircuit, is_idle_closed, is_closed, is_expired_open, keep_or_remove, evict_matching,
  evict_again, evict_if_needed,
}
use corx.Prelude.{
  ℕ, suc, ◌+◌, ◌-◌, ◌≤◌, ◌<◌, ◌≡◌, refl, ◌⊎◌, inl, inr, Bool, false, ◌||◌, not, some, List, [], ◌∷◌,
  arith, length, All, All-zip, leb, ltb, ◌==◌, Text, Bool-cases,
}
use corx.Table.{Table, retain_list, find_key}

one_more : {Q : Type 0} {a : ℕ} (b n : ℕ) → (a ≡ b + (n + 1)) ⊎ Q → (a ≡ suc b + n) ⊎ Q
one_more b n (inl e) = inl (omega arith)
one_more b n (inr q) = inr q

module _ (excess : ℕ) (pred : HostCircuit → Bool) where
  abbrev sweep : ℕ → List (Text × HostCircuit) → List (Text × HostCircuit)
  sweep = retain_list (keep_or_remove excess pred)

  find_key-sweep :
      (k : Text) {c : HostCircuit} (n : ℕ) (es : List (Text × HostCircuit))
      → pred c ≡ false
      → find_key k es ≡ some c
      → find_key k (sweep n es) ≡ some c
  unfolding retain_list keep_or_remove find_key
  find_key-sweep k n [] p h = h
  find_key-sweep k n ((j, d) ∷ es) p h =
      ground (arith, find_key-sweep k n es p, find_key-sweep k (n + 1) es p)

  All-sweep {κ} :
      (P : Text × HostCircuit → Type κ) (n : ℕ) (es : List (Text × HostCircuit))
      → All P es
      → All P (sweep n es)
  unfolding retain_list keep_or_remove
  All-sweep P n [] a = a
  All-sweep P n ((j, d) ∷ es) a = elim (Bool-cases (leb excess n || not (pred d))) [
    | inl e ↦ rw e (a.0, All-sweep P n es a.1)
    | inr e ↦ rw e (All-sweep P (n + 1) es a.1)
  ]

  sweep_done : (n : ℕ) (es : List (Text × HostCircuit)) → excess ≤ n → sweep n es ≡ es
  unfolding retain_list keep_or_remove
  sweep_done n [] h = refl
  sweep_done n ((j, d) ∷ es) h = ground (arith, sweep_done n es h)

  -- Either as many entries went as were in excess, or no entry that stayed satisfies the test.
  length-sweep :
      (n : ℕ) (es : List (Text × HostCircuit))
      → n ≤ excess
      → (length (sweep n es) + excess ≡ length es + n) ⊎ All (λ e. pred e.1 ≡ false) (sweep n es)
  unfolding retain_list keep_or_remove
  length-sweep n [] h = inr tt
  length-sweep n ((j, d) ∷ es) h = elim (Bool-cases (leb excess n)) [
    | inl full ↦ inl (ground (arith, sweep_done n es))
    | inr room ↦ elim (Bool-cases (pred d)) [
      | inl e ↦ rw (room, e) (one_more (length es) n (length-sweep (n + 1) es (ground arith)))
      | inr e ↦ rw (room, e) (ground (arith, length-sweep n es h))
    ]
  ]

idle : (c : HostCircuit) → is_closed c ≡ false → is_idle_closed c ≡ false
unfolding is_closed is_idle_closed
idle c a = rw a

module _ (table : Table HostCircuit) where
  open table use {Map, get, len, retain, entries, get-entries, len-entries, entries-retain}

  module _ (max_hosts : ℕ) (pred : HostCircuit → Bool) where
    evict_matching-keeps :
        (m : Map) (k : Text) {c : HostCircuit}
        → pred c ≡ false
        → get m k ≡ some c
        → get (evict_matching table max_hosts pred m) k ≡ some c
    unfolding evict_matching
    evict_matching-keeps m k p h = elim (Bool-cases (len m - max_hosts == 0)) [
      | inl e ↦ rw e h
      | inr e ↦
          rw (e, get-entries, entries-retain)
            (find_key-sweep (len m - max_hosts) pred k 0 (entries m) p (rw get-entries at h))
    ]

    evict_again-keeps :
        (m : Map) (k : Text) {c : HostCircuit}
        → pred c ≡ false
        → get m k ≡ some c
        → get (evict_again table max_hosts pred m) k ≡ some c
    unfolding evict_again
    evict_again-keeps m k p h = elim (Bool-cases (ltb max_hosts (len m))) [
      | inl e ↦ rw e (evict_matching-keeps m k p h)
      | inr e ↦ rw e h
    ]

    All-evict_matching :
        (P : Text × HostCircuit → Type 0) (m : Map)
        → All P (entries m)
        → All P (entries (evict_matching table max_hosts pred m))
    unfolding evict_matching
    All-evict_matching P m a = elim (Bool-cases (len m - max_hosts == 0)) [
      | inl e ↦ rw e a
      | inr e ↦ rw (e, entries-retain) (All-sweep (len m - max_hosts) pred P 0 (entries m) a)
    ]

    All-evict_again :
        (P : Text × HostCircuit → Type 0) (m : Map)
        → All P (entries m)
        → All P (entries (evict_again table max_hosts pred m))
    unfolding evict_again
    All-evict_again P m a = elim (Bool-cases (ltb max_hosts (len m))) [
      | inl e ↦ rw e (All-evict_matching P m a)
      | inr e ↦ rw e a
    ]

    evict_again_small : (m : Map) → len m ≤ max_hosts → evict_again table max_hosts pred m ≡ m
    unfolding evict_again
    evict_again_small m h = ground arith

    evict_again_bound :
        (m : Map)
        → (len (evict_again table max_hosts pred m) ≤ max_hosts)
          ⊎ All (λ e. pred e.1 ≡ false) (entries (evict_again table max_hosts pred m))
    unfolding evict_again evict_matching
    evict_again_bound m = elim (Bool-cases (ltb max_hosts (len m))) [
      | inr e ↦ rw e (inl (ground arith))
      | inl e ↦ elim (Bool-cases (len m - max_hosts == 0)) [
        | inl z ↦ absurd (ground arith)
        | inr z ↦
            rw (e, z, len-entries, entries-retain)
              (within (length-sweep (len m - max_hosts) pred 0 (entries m) (omega arith))
                (ground arith))
      ]
    ]
      where
        within :
            {a : ℕ} {Q : Type 0}
            → (a + (len m - max_hosts) ≡ length (entries m) + 0) ⊎ Q
            → max_hosts < len m
            → (a ≤ max_hosts) ⊎ Q
        within (inl s) h = inl (omega (arith, len-entries m))
        within (inr q) h = inr q

  -- Eviction never forgets a host that is half-open, or open with its time still to come.
  pub evict_if_needed-keeps :
      (max_hosts now : ℕ) (m : Map) (k : Text) {c : HostCircuit}
      → is_closed c ≡ false
      → is_expired_open now c ≡ false
      → get m k ≡ some c
      → get (evict_if_needed table max_hosts now m) k ≡ some c
  unfolding evict_if_needed
  evict_if_needed-keeps max_hosts now m k {c} a b h = elim (Bool-cases (leb (len m) max_hosts)) [
    | inl e ↦ rw e h
    | inr e ↦ rw e (
        evict_again-keeps max_hosts is_closed _ k a (
          evict_again-keeps max_hosts (is_expired_open now) _ k b
            (evict_matching-keeps max_hosts is_idle_closed m k (idle c a) h)))
  ]

  -- Afterwards either the map is within its bound, or every host that is left is half-open, or open
  -- with its time still to come.
  pub evict_if_needed_bound :
      (max_hosts now : ℕ) (m : Map)
      → (len (evict_if_needed table max_hosts now m) ≤ max_hosts)
        ⊎ All
            (λ e. (is_closed e.1 ≡ false) × (is_expired_open now e.1 ≡ false))
            (entries (evict_if_needed table max_hosts now m))
  unfolding evict_if_needed
  evict_if_needed_bound max_hosts now m = elim (Bool-cases (leb (len m) max_hosts)) [
    | inl e ↦ rw e (inl (ground arith))
    | inr e ↦ rw e (last (evict_again_bound max_hosts (is_expired_open now) first))
  ]
    where
      first : Map
      first = evict_matching table max_hosts is_idle_closed m

      second : Map
      second = evict_again table max_hosts (is_expired_open now) first

      third : Map
      third = evict_again table max_hosts is_closed second

      join :
          All (λ e. is_expired_open now e.1 ≡ false) (entries third)
          → (len third ≤ max_hosts) ⊎ All (λ e. is_closed e.1 ≡ false) (entries third)
          → (len third ≤ max_hosts)
            ⊎ All (λ e. (is_closed e.1 ≡ false) × (is_expired_open now e.1 ≡ false)) (entries third)
      join x (inl h) = inl h
      join x (inr h) = inr (All-zip _ _ (entries third) h x)

      last :
          (len second ≤ max_hosts) ⊎ All (λ e. is_expired_open now e.1 ≡ false) (entries second)
          → (len third ≤ max_hosts)
            ⊎ All (λ e. (is_closed e.1 ≡ false) × (is_expired_open now e.1 ≡ false)) (entries third)
      last (inl h) = inl (rw (evict_again_small max_hosts is_closed second h) h)
      last (inr h) =
          join (All-evict_again max_hosts is_closed _ second h)
            (evict_again_bound max_hosts is_closed second)
