-- ===== src/Server/Tests.antt =====
-- The middleware at concrete requests, and the theorems at inputs that meet their conditions.
use mathlib.Core.Option.{some-injective}
use mathlib.Core.Path.{subst}
use corx.Error.{ok}
use corx.Http.Assoc.{assoc_http, get_all, as_visible, all_visible}
use corx.Prelude.{◌≤◌, ◌≡◌, refl, ◌↔◌, inr, true, some, List, [], ◌∷◌, String, Text, codes, arith}
use corx.Config.Security.{bearer}
use corx.Server.Auth.{authorization, auth_layer}
use corx.Server.Auth.ConstantTime.{IsBytes}
use corx.Server.Auth.Gate.{passes, auth_layer-passes_iff}
use corx.Server.Body.{frame, pending, new, delivered, outputs, delivered-le-max, outputs-unchanged}
use corx.Server.LoadShed.{
  Shedding, admitted, Reach, unmoved, after, idle, enter, take_slot, IsCounted, Reach-IsCounted,
}
use corx.Server.OriginGuard.{OriginPolicy, evaluate}
use corx.Server.OriginGuard.Verdict.{permitted, evaluate-permitted_iff}

abbrev token : Text
token = codes "k9"

abbrev headers : List (String × Text)
headers = ("authorization", codes "Bearer k9") ∷ ("origin", codes "https://a.test") ∷ []

token-IsBytes : IsBytes token
token-IsBytes = (omega arith, (omega arith, tt))

authorization-IsBytes :
    (value : Text) → authorization assoc_http headers ≡ some value → IsBytes value
unfolding authorization get_all as_visible all_visible
authorization-IsBytes value e =
    subst IsBytes (some-injective (codes "Bearer k9") value e) (omega arith)

auth_layer-passes_iff_example :
    (auth_layer assoc_http bearer (token ∷ []) [] "GET" (codes "/https://b.test/") headers ≡ ok tt)
    ↔ (passes assoc_http bearer (token ∷ []) [] "GET" (codes "/https://b.test/") headers ≡ true)
auth_layer-passes_iff_example =
    auth_layer-passes_iff assoc_http bearer (token ∷ []) [] "GET" (codes "/https://b.test/") headers
      (token-IsBytes, tt) authorization-IsBytes

-- One request holds the only permit.
abbrev busy : Shedding
busy = record { inflight = 1; permits = 1; rejecting = 0 }

busy-Reach : Reach 1 idle busy
unfolding enter take_slot
busy-Reach = after (admitted idle refl) unmoved

Reach-IsCounted_example : IsCounted 1 busy
Reach-IsCounted_example = Reach-IsCounted 1 (omega arith) busy-Reach

delivered-le-max_example : delivered (new 10) (frame (some 6) ∷ frame (some 6) ∷ []) ≤ 10
delivered-le-max_example =
    delivered-le-max 10 (frame (some 6) ∷ frame (some 6) ∷ []) (omega arith) (omega arith)

outputs-unchanged_example :
    outputs (new 12) (frame (some 6) ∷ pending ∷ frame (some 6) ∷ [])
    ≡ frame (some 6) ∷ pending ∷ frame (some 6) ∷ []
outputs-unchanged_example =
    outputs-unchanged 12 (frame (some 6) ∷ pending ∷ frame (some 6) ∷ []) (omega arith)
      (inr (omega arith))

abbrev guard : OriginPolicy
guard = record {
  blacklist = codes "https://bad.test" ∷ [];
  whitelist = codes "https://a.test" ∷ [];
  blocked_methods = "CONNECT" ∷ [];
  required_header_any_of = "origin" ∷ "x-requested-with" ∷ [];
}

evaluate-permitted_iff_example :
    (evaluate assoc_http codes guard "GET" headers ≡ ok tt)
    ↔ (permitted assoc_http guard "GET" headers ≡ true)
evaluate-permitted_iff_example = evaluate-permitted_iff assoc_http codes guard "GET" headers
