-- ===== src/Server/RateLimit/Concurrent.antt =====
-- The admission of keys by many tasks at once. `admit_key` reads and changes the shared set in single
-- accesses; between two of them other tasks may do the same. What a task has read may be out of date,
-- so a key may be inserted at any time here; only the test after the insertion reads the set.
use corx.Keys.{Keys, count}
use corx.Server.RateLimit.{admit_key}
use corx.Prelude.{
  Bool-cases, leb, inl, inr, length-filter-le, sym, ◌||◌, any-append, ℕ, ◌≤◌, ◌≡◌, ◌&&◌, Bool, true,
  false, not, List, [], ◌∷◌, ◌++◌, any, length, ltb, arith, refl,
}

module _ {K : Type 0} (keys : Keys K) (max_keys : ℕ) where
  open keys use {Set, contains_key, len, insert, remove, empty, same}

  -- The shared set; the tasks that have inserted their key and not tested the size yet; and those
  -- that found it too large and have not removed their key yet.
  pub record Shared : Type 0 where
    pub known : Set
    pub inserted : List K
    pub refused : List K

  -- One access of one task.
  pub data Access : Shared → Shared → Type 0 where
    inserts :
        (s : Shared) (key : K)
        → Access s (record {
          known = insert s.known key;
          inserted = key ∷ s.inserted;
          refused = s.refused;
        })
    stays :
        (s : Shared) (before after : List K) (key : K)
        → s.inserted ≡ before ++ key ∷ after
        → ltb max_keys (len s.known) ≡ false
        → Access s (record s { inserted = before ++ after })
    overshoots :
        (s : Shared) (before after : List K) (key : K)
        → s.inserted ≡ before ++ key ∷ after
        → ltb max_keys (len s.known) ≡ true
        → Access s
            (record { known = s.known; inserted = before ++ after; refused = key ∷ s.refused })
    takes_back :
        (s : Shared) (before after : List K) (key : K)
        → s.refused ≡ before ++ key ∷ after
        → Access s (record {
          known = remove s.known key;
          inserted = s.inserted;
          refused = before ++ after;
        })

  -- What any number of accesses leads to from the empty set.
  pub data Reachable : Shared → Type 0 where
    begins : Reachable (record { known = empty; inserted = []; refused = [] })
    steps : {s t : Shared} → Reachable s → Access s t → Reachable t

  -- A key that no task is still deciding on.
  unfoldable pub is_settled : List K → List K → K → Bool
  is_settled inserted refused key = not (any (same key) inserted) && not (any (same key) refused)

  same-sym : (j k : K) → same k j ≡ false → same j k ≡ false
  same-sym j k h =
      let (to, from) = keys.same_iff k j in
      let (to', from') = keys.same_iff j k in ground (arith, h, to', from)

  any-middle :
      (p : K → Bool) (before after : List K) (key : K)
      → any p (before ++ key ∷ after) ≡ (p key || any p (before ++ after))
  any-middle p before after key =
      ground (arith, any-append p before (key ∷ after), any-append p before after)

  count_mono :
      (p q : K → Bool) (ks : List K) → ((j : K) → p j ≡ true → q j ≡ true) → count p ks ≤ count q ks
  count_mono p q [] h = omega arith
  count_mono p q (k ∷ ks) h = ground (arith, h k, count_mono p q ks h)

  abbrev IsBounded : Shared → Type 0
  IsBounded s = count (is_settled s.inserted s.refused) (keys.keys s.known) ≤ max_keys

  -- The key that a task inserts is not settled, so nothing is added to the settled ones.
  settled-insert :
      (inserted refused : List K) (key : K) (known : Set)
      → count (is_settled (key ∷ inserted) refused) (keys.keys (insert known key))
        ≤ count (is_settled inserted refused) (keys.keys known)
  unfolding is_settled
  settled-insert inserted refused key known = ground (
    arith,
    keys.count-insert known key (is_settled (key ∷ inserted) refused),
    (keys.same_iff key key).1 refl,
    count_mono (is_settled (key ∷ inserted) refused) (is_settled inserted refused) (keys.keys known)
        (λ j h. ground arith),
  )

  settled-remove :
      (inserted before after : List K) (key : K) (known : Set)
      → count (is_settled inserted (before ++ after)) (keys.keys (remove known key))
        ≤ count (is_settled inserted (before ++ key ∷ after)) (keys.keys known)
  unfolding is_settled
  settled-remove inserted before after key known =
      rw (keys.count-remove known key (is_settled inserted (before ++ after))) (
        count_mono _ _ (keys.keys known) (λ j h.
          let middle = any-middle (same j) before after key in
          let other = same-sym j key (ground arith) in ground arith))

  settled-overshoot :
      (before after refused : List K) (key : K) (known : List K)
      → count (is_settled (before ++ after) (key ∷ refused)) known
        ≤ count (is_settled (before ++ key ∷ after) refused) known
  unfolding is_settled
  settled-overshoot before after refused key known =
      count_mono _ _ known
        (λ j h. let middle = any-middle (same j) before after key in ground arith)

  Access-IsBounded : {s t : Shared} → Access s t → IsBounded s → IsBounded t
  Access-IsBounded (inserts s key) h =
      omega (arith, h, settled-insert s.inserted s.refused key s.known)
  Access-IsBounded (stays s before after key e small) h = ground (
    arith,
    keys.len-keys s.known,
    length-filter-le (is_settled (before ++ after) s.refused) (keys.keys s.known),
  )
  Access-IsBounded (overshoots s before after key e large) h =
      let bound : IsBounded (record s { inserted = before ++ key ∷ after }) = rw (sym e) h in
      omega (arith, bound, settled-overshoot before after s.refused key (keys.keys s.known))
  Access-IsBounded (takes_back s before after key e) h =
      let bound : IsBounded (record s { refused = before ++ key ∷ after }) = rw (sym e) h in
      omega (arith, bound, settled-remove s.inserted before after key s.known)

  Reachable-IsBounded : {s : Shared} → Reachable s → IsBounded s
  Reachable-IsBounded begins = ground (
    arith,
    keys.len-empty,
    keys.len-keys empty,
    length-filter-le (is_settled [] []) (keys.keys empty),
  )
  Reachable-IsBounded (steps reached access) = Access-IsBounded access (Reachable-IsBounded reached)

  count-all : (p : K → Bool) (ks : List K) → ((j : K) → p j ≡ true) → count p ks ≡ length ks
  count-all p [] h = refl
  count-all p (k ∷ ks) h = ground (arith, h k, count-all p ks h)

  -- However the accesses of any number of tasks interleave, when no admission is under way the set
  -- holds at most `max_keys` keys.
  pub quiet-len-le :
      {s : Shared} → Reachable s → s.inserted ≡ [] → s.refused ≡ [] → len s.known ≤ max_keys
  unfolding is_settled
  quiet-len-le {s} reached e f = omega (
    arith,
    Reachable-IsBounded reached,
    keys.len-keys s.known,
    count-all (is_settled s.inserted s.refused) (keys.keys s.known) (λ j. rw (e, f) refl),
  )

  -- An admission that nothing interrupts is a run of accesses, and leaves none under way.
  pub admit_key-Reachable :
      (known : Set) (key : K)
      → Reachable (record { known = known; inserted = []; refused = [] })
      → Reachable
          (record { known = (admit_key keys known key max_keys).1; inserted = []; refused = [] })
  unfolding admit_key
  admit_key-Reachable known key reached = elim (Bool-cases (contains_key known key)) [
    | inl e ↦ rw e reached
    | inr e ↦ elim (Bool-cases (leb max_keys (len known))) [
      | inl f ↦ rw (e, f) reached
      | inr f ↦
          let inserted = steps reached (inserts _ key) in
          elim (Bool-cases (ltb max_keys (len (insert known key)))) [
            | inl g ↦
                rw (e, f, g)
                  (steps (steps inserted (overshoots _ [] [] key refl g))
                    (takes_back _ [] [] key refl))
            | inr g ↦ rw (e, f, g) (steps inserted (stays _ [] [] key refl g))
          ]
    ]
  ]
