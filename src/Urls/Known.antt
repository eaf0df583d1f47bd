-- ===== src/Urls/Known.antt =====
-- The parameter `Urls` for the URIs of a list, with targets at the root of a host: its laws can be met.
use corx.Parser.{before_first}
use mathlib.Core.Path.{subst}
use corx.Prelude.{
  Bool-cases, sym, ℕ, ◌≡◌, refl, true, Option, none, some, List, [], ◌∷◌, ◌++◌, Text, codes,
  to_string, text_eq, ◌⊎◌, inl, inr, arith, if◌then◌else◌,
}
use corx.Uris.Known.{KnownUri, known_uris}
use corx.Urls.{Urls, is_plain, authority_of}

before_first-plain :
    (host rest : Text) → is_plain host ≡ true → before_first b':' (host ++ b':' ∷ rest) ≡ host
unfolding before_first
before_first-plain [] rest h = refl
before_first-plain (c ∷ host) rest h = ground (arith, before_first-plain host rest)

before_first-all : (host : Text) → is_plain host ≡ true → before_first b':' host ≡ host
unfolding before_first
before_first-all [] h = refl
before_first-all (c ∷ host) h = ground (arith, before_first-all host)

authority-host :
    (host : Text) (number : Option ℕ)
    → is_plain host ≡ true
    → before_first b':' (authority_of host number) ≡ host
authority-host host none h = before_first-all host h
authority-host host (some n) h = before_first-plain host (to_string n) h

pub inr-injective : {A : Type 0} {a b : A} → ◌≡◌ {A = Text ⊎ A} (inr a) (inr b) → a ≡ b
inr-injective e = cc

unfoldable pub to_ascii : Text → Text ⊎ Text
to_ascii host = if is_plain host then inr host else inl (codes "forbidden code point")

pub to_ascii-plain : (host ascii : Text) → to_ascii host ≡ inr ascii → is_plain ascii ≡ true
unfolding to_ascii
to_ascii-plain host ascii h = elim (Bool-cases (is_plain host)) [
  | inl e ↦ subst (λ t. is_plain t ≡ true) (inr-injective (rw e at h)) e
  | inr e ↦ ground arith
]

pub to_ascii-same : (host ascii : Text) → to_ascii host ≡ inr ascii → ascii ≡ host
unfolding to_ascii
to_ascii-same host ascii h = elim (Bool-cases (is_plain host)) [
  | inl e ↦ sym (inr-injective (rw e at h))
  | inr e ↦ ground arith
]

pub build-host :
    (s host pq : Text) (number : Option ℕ) (u : KnownUri)
    → is_plain host ≡ true
    → ◌≡◌ {A = Text ⊎ KnownUri}
        (inr (record {
          text = s ++ (codes "://" ++ (authority_of host number ++ pq));
          scheme = s;
          host = before_first b':' (authority_of host number);
        }))
        (inr u)
    → (Option.some u.scheme ≡ some s) × (Option.some u.host ≡ some host)
build-host s host pq number u plain h =
    let e = inr-injective h in (rw (sym e) refl, rw (sym e, authority-host host number plain) refl)

abbrev pub known_urls : (us : List KnownUri) → Urls (known_uris us)
known_urls us = record {
  uri_path = λ u. u.text;
  uri_query = λ u. none;
  PathAndQuery = Text;
  path_and_query = λ t. inr t;
  build = λ s a pq.
      inr
        (record { text = s ++ (codes "://" ++ (a ++ pq)); scheme = s; host = before_first b':' a });
  scheme = λ u. u.scheme;
  username = λ u. [];
  password = λ u. none;
  fragment = λ u. none;
  host_str = λ u. some u.host;
  port = λ u. none;
  port_or_known_default = λ u. some (if text_eq u.scheme (codes "https") then 443 else 80);
  path = λ u. codes "/";
  query = λ u. none;
  set_host = λ u host. inr (record u { host = host });
  percent_decode = λ t. some t;
  domain_to_ascii = to_ascii;
  domain_to_ascii-plain = to_ascii-plain;
  domain_to_ascii-host = λ u host ascii web present h. to_ascii-same host ascii h;
  build-parts = λ s host number pq u plain h. build-host s host pq number u plain h;
}
