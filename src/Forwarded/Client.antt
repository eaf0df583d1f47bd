-- ===== src/Forwarded/Client.antt =====
-- What an upstream is told of the client.
use corx.Error.{IpAddr}
use corx.Forwarded.{set_static, set_optional}
use corx.Http.{Http}
use corx.Prelude.{
  ◌≡◌, refl, false, Option, none, some, String, Text, str_eq, arith, Option-cases, inl, inr,
}

module _ (http : Http) (ip_text : IpAddr → Text) where
  open http use {HeaderValue, HeaderMap, values, from_str, values-insert}

  pub set_static-other :
      (m : HeaderMap) (name : String) (value : Text) (n : String)
      → str_eq name n ≡ false
      → values (set_static http ip_text m name value) n ≡ values m n
  unfolding set_static
  set_static-other m name value n e = elim (Option-cases (from_str value)) [
    | inl f ↦ ground arith
    | inr (v, f) ↦ ground (arith, values-insert m name v n)
  ]

  pub set_optional-other :
      (m : HeaderMap) (name : String) (value : Option Text) (n : String)
      → str_eq name n ≡ false
      → values (set_optional http ip_text m name value) n ≡ values m n
  set_optional-other m name none n e = refl
  set_optional-other m name (some value) n e = set_static-other m name value n e
