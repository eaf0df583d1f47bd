-- ===== src/Parser/Scheme.antt =====
-- The scheme of a normalised target.
use mathlib.Core.Path.{subst}
use corx.Error.{ok, ok-injective}
use corx.Parser.{split_once, after_last, before_first, implied_scheme, normalize_scheme}
use corx.Prelude.{
  ◌≡◌, refl, sym, ◌∙◌, inl, inr, Bool, true, false, ◌||◌, Option, none, some, ◌++◌, Text, codes,
  text_eq, strip_prefix, to_ascii_lowercase, arith, Bool-cases, Option-cases, to_ascii_lowercase,
}

-- A text that begins with the scheme "http" or "https", in any case.
unfoldable pub has_web_scheme : Text → Bool
has_web_scheme t = elim (split_once (codes "://") t) [
  | none ↦ false
  | some (scheme, _) ↦
      text_eq (to_ascii_lowercase scheme) (codes "http")
      || text_eq (to_ascii_lowercase scheme) (codes "https")
]

implied-http : (raw : Text) → has_web_scheme (codes "http" ++ (codes "://" ++ raw)) ≡ true
unfolding has_web_scheme split_once strip_prefix to_ascii_lowercase text_eq
implied-http raw = refl

implied-https : (raw : Text) → has_web_scheme (codes "https" ++ (codes "://" ++ raw)) ≡ true
unfolding has_web_scheme split_once strip_prefix to_ascii_lowercase text_eq
implied-https raw = refl

implied-web :
    (port : Option Text) (raw : Text)
    → has_web_scheme (implied_scheme port ++ (codes "://" ++ raw)) ≡ true
implied-web none raw = implied-http raw
implied-web (some port) raw = elim (Bool-cases (text_eq port (codes "443"))) [
  | inl e ↦ rw e (implied-https raw)
  | inr e ↦ rw e (implied-http raw)
]

web-fixed : (t : Text) → has_web_scheme t ≡ true → normalize_scheme t ≡ ok t
unfolding has_web_scheme normalize_scheme
web-fixed t h = ground arith

normalize_scheme-bare :
    (raw : Text)
    → split_once (codes "://") raw ≡ none
    → normalize_scheme raw
      ≡ ok (implied_scheme (after_last b':' (before_first b'/' raw)) ++ (codes "://" ++ raw))
unfolding normalize_scheme
normalize_scheme-bare raw e = rw (e, normalize_scheme)

normalize_scheme-web : (raw s : Text) → normalize_scheme raw ≡ ok s → has_web_scheme s ≡ true
unfolding normalize_scheme has_web_scheme
normalize_scheme-web raw s h = elim (Option-cases (split_once (codes "://") raw)) [
  | inl e ↦
      subst (λ t. has_web_scheme t ≡ true) (ok-injective (sym (normalize_scheme-bare raw e) ∙ h))
        (implied-web (after_last b':' (before_first b'/' raw)) raw)
  | inr (parts, e) ↦ ground arith
]

-- A normalised target begins with the scheme "http" or "https", in any case, and normalising it once
-- more changes nothing.
pub normalize_scheme_idem :
    (raw s : Text)
    → normalize_scheme raw ≡ ok s
    → (has_web_scheme s ≡ true) × (normalize_scheme s ≡ ok s)
normalize_scheme_idem raw s h = let web = normalize_scheme-web raw s h in (web, web-fixed s web)
