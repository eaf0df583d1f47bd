-- ===== src/Headers/Filter.antt =====
-- What the filter removes, and that it changes nothing else.
use corx.Headers.{
  HeaderFilter, hop_by_hop, filter_map, remove_all, connection_tokens, connection_listed,
  strip_connection_listed, apply,
}
use corx.Http.{Http}
use corx.Prelude.{
  ◌≡◌, refl, Bool, false, Option, ◌&&◌, ◌||◌, not, inl, inr, none, some, List, [], ◌∷◌, String,
  Text, str_eq, any, arith, if◌then◌else◌, trim, split, map, filter, is_empty, head?, Option-cases,
  Bool-cases,
}

unfoldable pub among : List String → String → Bool
among names n = any (λ m. str_eq m n) names

among-none : (n : String) → among [] n ≡ false
unfolding among
among-none n = refl

module _ (http : Http) where
  open http use {HeaderMap, HeaderValue, values, get, to_str, values-remove, get-values}

  values-remove_all :
      (m : HeaderMap) (names : List String) (n : String)
      → values (remove_all http m names) n ≡ (if among names n then [] else values m n)
  unfolding remove_all among
  values-remove_all m [] n = refl
  values-remove_all m (name ∷ names) n =
      ground (arith, values-remove_all (http.remove m name) names n, values-remove m name n)

  -- The token of a `Connection` value, without the white space around it, is the name.
  unfoldable pub names : String → Text → Bool
  names n token =
      not (is_empty (trim token))
      && (elim (http.parse_name (trim token)) [ none ↦ false | some name ↦ str_eq name n ])

  -- The first `Connection` header lists the name between its commas.
  unfoldable pub lists : HeaderMap → String → Bool
  lists m n = elim (head? (values m "connection")) [
    | none ↦ false
    | some connection ↦ elim (to_str connection) [
      | none ↦ false
      | some value ↦ any (names n) (split b',' value)
    ]
  ]

  among-tokens :
      (n : String) (tokens : List Text)
      → among
          (filter_map http.parse_name (filter (λ token. not (is_empty token)) (map trim tokens)))
          n
        ≡ any (names n) tokens
  unfolding among names
  among-tokens n [] = refl
  among-tokens n (token ∷ tokens) = elim (Bool-cases (is_empty (trim token))) [
    | inl e ↦ ground (arith, among-tokens n tokens, e)
    | inr e ↦ elim (Option-cases (http.parse_name (trim token))) [
      | inl f ↦ ground (arith, among-tokens n tokens, e, f)
      | inr (name, f) ↦ ground (arith, among-tokens n tokens, e, f)
    ]
  ]

  among-connection_listed :
      (m : HeaderMap) (n : String) → among (connection_listed http m) n ≡ lists m n
  unfolding connection_listed connection_tokens lists among
  among-connection_listed m n = go (get m "connection") (get-values m "connection")
    where
      text-go :
          (value : Option Text)
          → among (elim value [ none ↦ [] | some value ↦ connection_tokens http value ]) n
            ≡ (elim value [ none ↦ false | some value ↦ any (names n) (split b',' value) ])
      text-go none = refl
      text-go (some value) = among-tokens n (split b',' value)

      go :
          (first : Option HeaderValue)
          → first ≡ head? (values m "connection")
          → among
              (elim first [
                | none ↦ []
                | some connection ↦ elim (to_str connection) [
                  | none ↦ []
                  | some value ↦ connection_tokens http value
                ]
              ])
              n
            ≡ lists m n
      go none e = rw (lists, ← e) refl
      go (some connection) e = rw (lists, ← e) (text-go (to_str connection))

  -- The names that a filter takes out of a header map.
  abbrev pub dropped : HeaderFilter → HeaderMap → String → Bool
  dropped filter m n = lists m n || among hop_by_hop n || among filter.extra_deny n

  -- After the filter, a name has no value if it is hop-by-hop, on the operator's list, or a token
  -- between the commas of the first `Connection` header, white space around it aside; and every other
  -- name has exactly the values that it had.
  pub values-apply :
      (filter : HeaderFilter) (m : HeaderMap) (n : String)
      → values (apply http filter m) n ≡ (if dropped filter m n then [] else values m n)
  unfolding apply strip_connection_listed
  values-apply filter m n = ground (
    arith,
    among-connection_listed m n,
    values-remove_all m (connection_listed http m) n,
    values-remove_all (strip_connection_listed http m) hop_by_hop n,
    values-remove_all (remove_all http (strip_connection_listed http m) hop_by_hop)
        filter.extra_deny n,
  )
