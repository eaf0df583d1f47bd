-- ===== src/Parser.antt =====
-- crates/corx-core/src/proxy/url_parser.rs: the text of the target that a request names, up to the
-- parser of the crate `url`. A request URI is seen by its path and its query.
pub mod Scheme
pub mod Target
mod Steps
pub mod Safety
mod Tests
use corx.Error.{ProxyError, Result, ok, err}
use corx.Prelude.{
  ℕ, ◌==◌, Bool, true, false, ◌||◌, Option, none, some, List, [], ◌∷◌, ◌++◌, Text, codes, text_eq,
  split, strip_prefix, to_ascii_lowercase, is_empty, if◌then◌else◌,
}

-- `str::split_once`, for a pattern that is not empty
unfoldable pub split_once : Text → Text → Option (Text × Text)
split_once p [] = none
split_once p (c ∷ s) =
    let later = split_once p s in
    elim (strip_prefix p (c ∷ s)) [
      | some rest ↦ some ([], rest)
      | none ↦ elim later [ none ↦ none | some (before, rest) ↦ some (c ∷ before, rest) ]
    ]

-- `str::rsplit_once` with one byte, and of its result the text after it
unfoldable pub after_last : ℕ → Text → Option Text
after_last sep [] = none
after_last sep (c ∷ s) =
    let later = after_last sep s in
    elim later [ some rest ↦ some rest | none ↦ if c == sep then some s else none ]

-- the text before the first separator, or all of it: `split(sep).next()`
unfoldable pub before_first : ℕ → Text → Text
before_first sep [] = []
before_first sep (c ∷ s) = let rest = before_first sep s in if c == sep then [] else c ∷ rest

-- `find_query_value`: the value of the first pair with the key
unfoldable pub find_pair : List Text → Text → Option Text
find_pair [] key = none
find_pair (pair ∷ pairs) key =
    let later = find_pair pairs key in
    elim (split_once (codes "=") pair) [
      | none ↦ later
      | some (k, v) ↦ if text_eq k key then some v else later
    ]

unfoldable pub find_query_value : Text → Text → Option Text
find_query_value query key = find_pair (split b'&' query) key

-- `trim_start_matches('/')`
unfoldable pub trim_slashes : Text → Text
trim_slashes [] = []
trim_slashes (c ∷ s) = let rest = trim_slashes s in if c == b'/' then rest else c ∷ s

-- the end of `candidate_from_uri`, where no query value names the target
unfoldable pub candidate_from_path : Text → Option Text → Result Text
candidate_from_path path query =
    let trimmed = trim_slashes path in
    if is_empty trimmed
    then err (ProxyError.invalid_url (codes "no target url supplied"))
    else elim query [ none ↦ ok trimmed | some q ↦ ok (trimmed ++ (codes "?" ++ q)) ]

unfoldable pub candidate_from_uri : Text → Option Text → Result Text
candidate_from_uri path none = candidate_from_path path none
candidate_from_uri path (some query) = elim (find_query_value query (codes "url")) [
  | some url_value ↦ ok url_value
  | none ↦ candidate_from_path path (some query)
]

-- the `match` on the port
abbrev pub implied_scheme : Option Text → Text
implied_scheme none = codes "http"
implied_scheme (some port) = if text_eq port (codes "443") then codes "https" else codes "http"

unfoldable pub normalize_scheme : Text → Result Text
normalize_scheme raw = elim (split_once (codes "://") raw) [
  | some (scheme_part, _) ↦
      let scheme = to_ascii_lowercase scheme_part in
      if text_eq scheme (codes "http") || text_eq scheme (codes "https")
      then ok raw
      else err (ProxyError.invalid_url (codes "unsupported scheme `" ++ (scheme ++ codes "`")))
  | none ↦ ok (implied_scheme (after_last b':' (before_first b'/' raw)) ++ (codes "://" ++ raw))
]
