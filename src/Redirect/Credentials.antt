-- ===== src/Redirect/Credentials.antt =====
-- Credentials on a hop to another host.
use corx.Http.{Http}
use corx.Prelude.{
  ◌≡◌, refl, Bool, true, false, ◌||◌, List, [], ◌∷◌, String, str_eq, any, if◌then◌else◌, arith,
}
use corx.Redirect.{sensitive_headers, remove_each, next_headers}
use corx.Uris.{Uris}

-- Names that never follow a hop to another host.
unfoldable pub is_private : String → Bool
is_private n = any (λ m. str_eq m n) sensitive_headers || str_eq "host" n

module _ (http : Http) (uris : Uris) where
  open http use {HeaderMap, values, values-remove}

  values-remove_each :
      (m : HeaderMap) (names : List String) (n : String)
      → values (remove_each http uris m names) n
        ≡ (if any (λ m. str_eq m n) names then [] else values m n)
  unfolding remove_each
  values-remove_each m [] n = refl
  values-remove_each m (name ∷ names) n =
      ground (arith, values-remove_each (http.remove m name) names n, values-remove m name n)

  -- The headers of the next hop: on a hop to another host the private ones are gone, and no other
  -- header changes.
  pub values-next_headers :
      (cross_host : Bool) (m : HeaderMap) (n : String)
      → (values (next_headers http uris cross_host m) n
          ≡ (if cross_host then (if is_private n then [] else values m n) else values m n))
  unfolding next_headers is_private
  values-next_headers false m n = refl
  values-next_headers true m n = ground (
    arith,
    values-remove (remove_each http uris m sensitive_headers) "host" n,
    values-remove_each m sensitive_headers n,
  )
