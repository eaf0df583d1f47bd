-- ===== src/Keys/Listed.antt =====
-- The parameter `Keys` by lists without repetition: its laws can be met.
use corx.Keys.{Keys, count}
use corx.Prelude.{
  Bool-cases, inl, inr, sym, ◌+◌, ◌≡◌, ◌↔◌, refl, Bool, true, ◌&&◌, not, List, [], ◌∷◌, length,
  filter, any, arith, if◌then◌else◌,
}

module _ {K : Type 0} (same : K → K → Bool) where
  unfoldable pub add : List K → K → List K
  add ks k = if any (λ j. same k j) ks then ks else k ∷ ks

  unfoldable pub drop_key : List K → K → List K
  drop_key ks k = filter (λ j. not (same k j)) ks

  pub count-add :
      (ks : List K) (k : K) (p : K → Bool)
      → count p (add ks k)
        ≡ (if any (λ j. same k j) ks then 0 else (if p k then 1 else 0)) + count p ks
  unfolding add
  count-add ks k p = ground arith

  pub count-drop_key :
      (ks : List K) (k : K) (p : K → Bool)
      → count p (drop_key ks k) ≡ count (λ j. p j && not (same k j)) ks
  unfolding drop_key
  count-drop_key [] k p = refl
  count-drop_key (j ∷ ks) k p = ground (arith, count-drop_key ks k p)

  pub any-add :
      ((j k : K) → (same j k ≡ true) ↔ (j ≡ k))
      → (ks : List K) (k j : K)
      → any (λ i. same j i) (add ks k) ≡ (if same k j then true else any (λ i. same j i) ks)
  unfolding add
  any-add same_iff ks k j =
      let (to, from) = same_iff k j in
      let (to', from') = same_iff j k in
      elim (Bool-cases (same k j)) [
        | inl e ↦ rw (sym (to e)) (ground (arith, (same_iff k k).1 refl))
        | inr e ↦ ground (arith, e, to', from)
      ]

abbrev pub listed :
    {K : Type 0} (same : K → K → Bool) → ((j k : K) → (same j k ≡ true) ↔ (j ≡ k)) → Keys K
listed {K} same same_iff = record {
  same = same;
  same_iff = same_iff;
  Set = List K;
  empty = [];
  contains_key = λ ks k. any (λ j. same k j) ks;
  len = length;
  insert = add same;
  remove = drop_key same;
  keys = λ ks. ks;
  contains_key-empty = λ k. refl;
  contains_key-insert = any-add same same_iff;
  len-keys = λ ks. refl;
  len-empty = refl;
  count-insert = count-add same;
  count-remove = count-drop_key same;
}
