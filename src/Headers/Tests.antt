-- ===== src/Headers/Tests.antt =====
-- The filter at a concrete header map.
use corx.Headers.{HeaderFilter, apply}
use corx.Headers.Filter.{dropped, values-apply}
use corx.Http.Assoc.{assoc_http, get_all}
use corx.Prelude.{◌≡◌, List, [], ◌∷◌, String, Text, codes, if◌then◌else◌}

abbrev operator : HeaderFilter
operator = record { extra_deny = "cookie" ∷ [] }

abbrev inbound : List (String × Text)
inbound =
    ("connection", codes "close, X-Custom")
    ∷ ("x-custom", codes "1")
    ∷ ("cookie", codes "a=b")
    ∷ ("x-keep", codes "2")
    ∷ []

values-apply_example :
    get_all (apply assoc_http operator inbound) "x-custom"
    ≡ (if dropped assoc_http operator inbound "x-custom" then [] else get_all inbound "x-custom")
values-apply_example = values-apply assoc_http operator inbound "x-custom"
