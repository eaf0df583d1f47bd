-- ===== src/Headers.antt =====
-- crates/corx-core/src/proxy/headers.rs: the filter that both directions of the proxy apply.
-- The configured names are parsed by `parse_name` of the crate `http`, a parameter.
pub mod Filter
mod Tests
use corx.Http.{Http}
use corx.Prelude.{
  ◌≡◌, Bool, true, false, ◌||◌, not, Option, none, some, List, [], ◌∷◌, ◌++◌, String, Text, codes,
  trim, split, map, filter, is_empty, ℕ,
}

-- `HOP_BY_HOP`
abbrev pub hop_by_hop : List String
hop_by_hop =
    "connection" ∷ "keep-alive" ∷ "proxy-authenticate" ∷ "proxy-authorization" ∷ "te" ∷ "trailer"
    ∷ "transfer-encoding" ∷ "upgrade" ∷ "proxy-connection" ∷ []

-- `HeaderFilter`
pub record HeaderFilter : Type 0 where
  pub extra_deny : List String

-- `Iterator::filter_map`
abbrev pub filter_map {ℓ κ} : {A : Type ℓ} {B : Type κ} → (A → Option B) → List A → List B
filter_map f [] = []
filter_map f (x ∷ xs) = let rest = filter_map f xs in elim (f x) [ none ↦ rest | some y ↦ y ∷ rest ]

module _ (http : Http) where
  open http use {HeaderMap, get, remove, to_str, parse_name}

  -- the names of `try_new`; the error is the text that failed to parse
  unfoldable pub parse_names : List Text → Option (List String)
  parse_names [] = some []
  parse_names (raw ∷ rest) = elim (parse_name raw) [
    | none ↦ none
    | some name ↦ elim (parse_names rest) [ none ↦ none | some names ↦ some (name ∷ names) ]
  ]

  -- `HeaderFilter::try_new`
  unfoldable pub try_new : List Text → Option HeaderFilter
  try_new extra_deny = elim (parse_names extra_deny) [
    | none ↦ none
    | some names ↦ some (record { extra_deny = names })
  ]

  -- a loop that removes each name
  unfoldable pub remove_all : HeaderMap → List String → HeaderMap
  remove_all headers [] = headers
  remove_all headers (name ∷ names) = remove_all (remove headers name) names

  -- the tokens of one `Connection` value that are header names
  unfoldable pub connection_tokens : Text → List String
  connection_tokens value =
      filter_map parse_name (filter (λ token. not (is_empty token)) (map trim (split b',' value)))

  -- `to_remove` of `strip_connection_listed`: of the first `Connection` header only
  unfoldable pub connection_listed : HeaderMap → List String
  connection_listed headers = elim (get headers "connection") [
    | none ↦ []
    | some connection ↦ elim (to_str connection) [
      | none ↦ []
      | some value ↦ connection_tokens value
    ]
  ]

  unfoldable pub strip_connection_listed : HeaderMap → HeaderMap
  strip_connection_listed headers = remove_all headers (connection_listed headers)

  -- `HeaderFilter::apply`
  unfoldable pub apply : HeaderFilter → HeaderMap → HeaderMap
  apply filter headers =
      remove_all (remove_all (strip_connection_listed headers) hop_by_hop) filter.extra_deny
