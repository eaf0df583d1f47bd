-- ===== src/Config/Validate/Report.antt =====
-- What one check adds to a report, and how checks that follow each other add up.
use corx.Config.Validate.{ConfigError, ValidationReport, error_if, warn_if}
use corx.Prelude.{
  ◌≡◌, ◌↔◌, Bool, true, false, not, List, [], ◌∷◌, ◌++◌, String, is_empty, if◌then◌else◌, arith,
  refl,
}

unfoldable pub clean : ValidationReport → Bool
clean report = is_empty report.errors

-- What a check of one section adds: nothing was found before it, and the section is fine.
pub record Checks (check : ValidationReport → ValidationReport) (P : Type 0) : Type 0 where
  pub law :
      (report : ValidationReport) → (clean (check report) ≡ true) ↔ ((clean report ≡ true) × P)

is_empty-snoc : (es : List ConfigError) (e : ConfigError) → is_empty (es ++ e ∷ []) ≡ false
is_empty-snoc [] e = refl
is_empty-snoc (d ∷ es) e = refl

pub error_if-Checks :
    (test : Bool) (path reason : String) → Checks (error_if test path reason) (test ≡ false)
unfolding clean error_if
error_if-Checks true path reason = record {
  law = λ report.
      let e = is_empty-snoc report.errors (record { path = path; reason = reason }) in
      (λ h. ground arith, λ h. ground arith);
}
error_if-Checks false path reason = record { law = λ report. (λ h. (h, refl), λ h. h.0) }

pub warn_if-Checks : (test : Bool) (path reason : String) → Checks (warn_if test path reason) Unit
unfolding clean warn_if
warn_if-Checks true path reason = record { law = λ report. (λ h. (h, tt), λ h. h.0) }
warn_if-Checks false path reason = record { law = λ report. (λ h. (h, tt), λ h. h.0) }

module _ {P Q : Type 0} where
  pub Checks-then :
      {f g : ValidationReport → ValidationReport}
      → Checks f P
      → Checks g Q
      → Checks (λ report. g (f report)) (P × Q)
  Checks-then {f} {g} hf hg = record {
    law = λ report. (
      λ h. let (a, q) = (hg.law (f report)).0 h in let (c, p) = (hf.law report).0 a in (c, (p, q)),
      λ h. (hg.law (f report)).1 ((hf.law report).1 (h.0, h.1.0), h.1.1),
    );
  }

  pub Checks-as : {f : ValidationReport → ValidationReport} → P ↔ Q → Checks f P → Checks f Q
  Checks-as pq hf = record {
    law = λ report. (
      λ h. let (c, p) = (hf.law report).0 h in (c, pq.0 p),
      λ h. (hf.law report).1 (h.0, pq.1 h.1),
    );
  }

-- no check at all
pub Checks-none : Checks (λ report. report) Unit
Checks-none = record { law = λ report. (λ h. (h, tt), λ h. h.0) }

-- one of two checks
pub Checks-if :
    {f g : ValidationReport → ValidationReport} {P Q : Type 0} (test : Bool)
    → Checks f P
    → Checks g Q
    → Checks
        (λ report. if test then f report else g report)
        ((test ≡ true → P) × (test ≡ false → Q))
Checks-if true hf hg = record {
  law = λ report. (
    λ h. let (c, p) = (hf.law report).0 h in (c, (λ e. p, λ e. cc)),
    λ h. (hf.law report).1 (h.0, h.1.0 refl),
  );
}
Checks-if false hf hg = record {
  law = λ report. (
    λ h. let (c, q) = (hg.law report).0 h in (c, (λ e. cc, λ e. q)),
    λ h. (hg.law report).1 (h.0, h.1.1 refl),
  );
}

-- a check that is made only where something is enabled
pub Checks-enabled :
    {f : ValidationReport → ValidationReport} {P : Type 0} (enabled : Bool)
    → Checks f P
    → Checks (λ report. if not enabled then report else f report) (enabled ≡ true → P)
Checks-enabled enabled hf =
    Checks-as (λ h e. h.1 (ground (arith, e)), λ h. (λ e. tt, λ e. h (ground (arith, e))))
      (Checks-if (not enabled) Checks-none hf)
