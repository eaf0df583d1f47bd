-- ===== src/Target/Admission.antt =====
-- What the target policy admits.
use mathlib.Core.Bool.{or-true}
use corx.Error.{ok}
use corx.Prelude.{
  ◌≡◌, ap, ◌↔◌, ◌⊎◌, inl, inr, Bool, true, ◌&&◌, ◌||◌, not, List, [], ◌∷◌, ◌++◌, any, Text, codes,
  text_eq, text_eq_iff, text_eq_refl, to_ascii_lowercase, to_ascii_lowercase_idem, ends_with,
  Bool-cases, arith,
}
use corx.Target.{
  TargetMode, any_public, allowlist, denylist, TargetPolicy, host_matches, check_authority,
}

-- A text that ends in another is something followed by it.
ends_with_sound : (s p : Text) → ends_with s p ≡ true → (front : Text) × (s ≡ front ++ p)
unfolding ends_with text_eq
ends_with_sound [] p h = ([], (text_eq_iff [] p).0 h)
ends_with_sound (c ∷ s) p h = elim (Bool-cases (text_eq (c ∷ s) p)) [
  | inl e ↦ ([], (text_eq_iff (c ∷ s) p).0 e)
  | inr e ↦
      let later : ends_with s p ≡ true = ground arith in
      let (front, same) = ends_with_sound s p later in (c ∷ front, ap (◌∷◌ c) same)
]

ends_with-append : (front p : Text) → ends_with (front ++ p) p ≡ true
unfolding ends_with
ends_with-append [] [] = text_eq_refl []
ends_with-append [] (c ∷ p) = rw (text_eq_refl (c ∷ p))
ends_with-append (d ∷ front) p = rw (ends_with-append front p, or-true)

-- A host pattern that begins with a dot.
abbrev pub dotted : Text → Text
dotted suffix = codes "." ++ suffix

-- A pattern `.suffix` matches the suffix itself and the hosts below it: a match never ends in the
-- middle of a label.
pub host_matches-dotted_iff :
    (suffix host : Text)
    → (host_matches (dotted suffix) host ≡ true)
      ↔ ((host ≡ suffix) ⊎ ((front : Text) × (host ≡ front ++ dotted suffix)))
unfolding host_matches
host_matches-dotted_iff suffix host = (to, from)
  where
    to :
        (text_eq host suffix || ends_with host (dotted suffix)) ≡ true
        → (host ≡ suffix) ⊎ ((front : Text) × (host ≡ front ++ dotted suffix))
    to h = elim (Bool-cases (text_eq host suffix)) [
      | inl e ↦ inl ((text_eq_iff host suffix).0 e)
      | inr e ↦
          let below : ends_with host (dotted suffix) ≡ true = ground arith in
          inr (ends_with_sound host (dotted suffix) below)
    ]

    from :
        (host ≡ suffix) ⊎ ((front : Text) × (host ≡ front ++ dotted suffix))
        → (text_eq host suffix || ends_with host (dotted suffix)) ≡ true
    from (inl e) = rw ((text_eq_iff host suffix).1 e)
    from (inr (front, e)) = rw (e, ends_with-append front (dotted suffix), or-true)

-- The hosts that a mode admits, by the operator's patterns.
unfoldable pub mode_admits : TargetMode → List Text → Text → Bool
mode_admits any_public hosts host = true
mode_admits allowlist hosts host = any (λ pattern. host_matches pattern host) hosts
mode_admits denylist hosts host = not (any (λ pattern. host_matches pattern host) hosts)

unfoldable pub admits : TargetPolicy → Text → Text → Bool
admits policy scheme host =
    (not policy.https_only || text_eq scheme (codes "https"))
    && (any (λ s. text_eq s scheme) policy.schemes && mode_admits policy.mode policy.hosts host)

-- A target is let through exactly when its lower-case scheme is allowed, is "https" if only that
-- may be used, and its lower-case host passes the list of the mode.
pub check_authority-admits_iff :
    (policy : TargetPolicy) (scheme host : Text)
    → (check_authority policy scheme host ≡ ok tt)
      ↔ (admits policy (to_ascii_lowercase scheme) (to_ascii_lowercase host) ≡ true)
unfolding check_authority admits mode_admits
check_authority-admits_iff policy scheme host = (λ e. ground arith, λ e. ground arith)

-- The verdict does not depend on the case of the scheme or of the host.
pub check_authority_case :
    (policy : TargetPolicy) (scheme host : Text)
    → check_authority policy (to_ascii_lowercase scheme) (to_ascii_lowercase host)
      ≡ check_authority policy scheme host
unfolding check_authority
check_authority_case policy scheme host =
    rw (to_ascii_lowercase_idem scheme, to_ascii_lowercase_idem host)
