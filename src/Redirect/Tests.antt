-- ===== src/Redirect/Tests.antt =====
-- A redirect from one host to another.
use corx.Http.Assoc.{assoc_http}
use corx.Prelude.{◌≡◌, refl, true, false, List, [], ◌∷◌, String, Text, codes}
use corx.Redirect.{RedirectState, prepare_next, classify_transition, body_bearing}
use corx.Redirect.Transition.{IsOutcome, prepare_next-IsOutcome}
use corx.Uris.Known.{KnownUri, known_uris}

abbrev home : KnownUri
home = record { text = codes "https://a.test/"; scheme = codes "https"; host = codes "a.test" }

abbrev away : KnownUri
away = record { text = codes "https://b.test/"; scheme = codes "https"; host = codes "b.test" }

abbrev state : RedirectState assoc_http (known_uris (home ∷ away ∷ []))
state = record {
  method = "POST";
  headers = ("cookie", codes "a=b") ∷ ("accept", codes "*") ∷ [];
  uri = home;
}

abbrev response : List (String × Text)
response = ("location", codes "https://b.test/") ∷ []

-- The test `post_downgrades_to_get_on_303`.
post_downgrades : classify_transition "POST" 303 ≡ ("GET", true)
unfolding classify_transition body_bearing
post_downgrades = refl

prepare_next-IsOutcome_example :
    IsOutcome assoc_http
      (known_uris (home ∷ away ∷ []))
      false
      state
      (prepare_next assoc_http (known_uris (home ∷ away ∷ [])) state 303 response false)
prepare_next-IsOutcome_example =
    prepare_next-IsOutcome assoc_http (known_uris (home ∷ away ∷ [])) state 303 response false
