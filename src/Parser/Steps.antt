-- ===== src/Parser/Steps.antt =====
-- What it means that a step of the target parser succeeds.
use corx.Error.{Result, ok, err, ok-injective, ◌>>◌}
use corx.Parser.Target.{checked, required, max_host_len, within_bound}
use corx.Prelude.{
  ◌≤◌, ◌≡◌, refl, ap, ◌⊎◌, inl, inr, Option, none, some, Text, ltb, length, arith, Bool-cases,
}
use corx.Uris.{Uris}
use corx.Urls.{Urls}

pub then-ok {ℓ} :
    {B : Type ℓ} (r : Result (Unit {0})) (s : Result B) (b : B)
    → (r >> s) ≡ ok b
    → (r ≡ ok tt) × (s ≡ ok b)
then-ok (ok tt) s b h = (refl, h)
then-ok (err e) s b h = cc

pub checked-ok {ℓ} :
    {A : Type ℓ} (prefix : Text) (r : Text ⊎ A) (a : A) → checked prefix r ≡ ok a → r ≡ inr a
unfolding checked
checked-ok prefix (inl message) a h = cc
checked-ok prefix (inr value) a h = ap inr (ok-injective h)

pub required-ok {ℓ} :
    {A : Type ℓ} (message : Text) (o : Option A) (a : A) → required message o ≡ ok a → o ≡ some a
unfolding required
required-ok message none a h = cc
required-ok message (some value) a h = ap some (ok-injective h)

pub within_bound-ok :
    (uris : Uris) (urls : Urls uris) (host ascii : Text)
    → within_bound uris urls host ≡ ok ascii
    → (host ≡ ascii) × (length host ≤ max_host_len)
unfolding within_bound
within_bound-ok uris urls host ascii h = elim (Bool-cases (ltb max_host_len (length host))) [
  | inl e ↦ ground arith
  | inr e ↦ (ok-injective (rw e at h), ground arith)
]
