-- ===== src/Table/Assoc.antt =====
-- The parameter `Table` by association lists: its laws can be met.
use corx.Prelude.{
  ◌≡◌, refl, none, some, List, [], ◌∷◌, arith, length, Text, text_eq, text_eq_iff, if◌then◌else◌,
}
use corx.Table.{Table, retain_list, find_key}

module _ {V : Type 0} where
  unfoldable pub put : List (Text × V) → Text → V → List (Text × V)
  put [] k v = (k, v) ∷ []
  put ((j, w) ∷ m) k v = if text_eq j k then (k, v) ∷ m else (j, w) ∷ put m k v

  pub find_key-put :
      (m : List (Text × V)) (k : Text) (v : V) (j : Text)
      → find_key j (put m k v) ≡ (if text_eq k j then some v else find_key j m)
  unfolding find_key put
  find_key-put [] k v j = refl
  find_key-put ((i, w) ∷ m) k v j =
      ground (arith, text_eq_iff k j, text_eq_iff i k, text_eq_iff i j, find_key-put m k v j)

  pub find_key-nil : (k : Text) → find_key {V = V} k [] ≡ none
  unfolding find_key
  find_key-nil k = refl

abbrev pub assoc_table : (V : Type 0) → Table V
assoc_table V = record {
  Map = List (Text × V);
  empty = [];
  get = λ m k. find_key k m;
  insert = put;
  len = length;
  retain = retain_list;
  entries = λ m. m;
  get-empty = find_key-nil;
  get-insert = find_key-put;
  get-entries = λ m k. refl;
  len-entries = λ m. refl;
  entries-retain = λ f n m. refl;
}
