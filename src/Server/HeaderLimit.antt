-- ===== src/Server/HeaderLimit.antt =====
-- crates/corx-server/src/middleware/header_limit.rs: the limit on the size of a request's headers.
-- The iterator of `HeaderMap` is a parameter, seen by the name and the value of each entry.
use Prim.Native.Nat.{min}
use corx.Prelude.{ℕ, ◌+◌, ◌≤◌, ◌<◌, ◌≡◌, Bool, not, List, [], ◌∷◌, Text, ltb, leb, length, arith}
use corx.Server.Body.{u64_max}

-- `u64::saturating_add`
unfoldable pub saturating_add : ℕ → ℕ → ℕ
saturating_add a b = min (a + b) u64_max

-- the loop of `header_map_bytes`
unfoldable pub add_entries : ℕ → List (Text × Text) → ℕ
add_entries total [] = total
add_entries total ((name, value) ∷ headers) =
    add_entries (saturating_add (saturating_add total (length name)) (length value)) headers

-- `header_map_bytes`
abbrev pub header_map_bytes : List (Text × Text) → ℕ
header_map_bytes headers = add_entries 0 headers

-- `header_limit_layer`: whether the request goes on, and is not answered with the status 431
unfoldable pub header_limit_layer : ℕ → List (Text × Text) → Bool
header_limit_layer max headers = not (ltb max (header_map_bytes headers))

-- the size of the headers, without a bound
unfoldable pub total_length : List (Text × Text) → ℕ
total_length [] = 0
total_length ((name, value) ∷ headers) = length name + length value + total_length headers

add_entries-min :
    (total : ℕ) (headers : List (Text × Text))
    → total ≤ u64_max
    → add_entries total headers ≡ min (total + total_length headers) u64_max
unfolding add_entries total_length saturating_add
add_entries-min total [] h = ground arith
add_entries-min total ((name, value) ∷ headers) h =
    let next = saturating_add (saturating_add total (length name)) (length value) in
    ground (arith, add_entries-min next headers (ground arith))

-- A request passes exactly when the names and the values of its headers have at most `max` bytes in
-- all, however large they are: for a limit below 2 ^ 64 the saturation changes no verdict.
pub header_limit_layer-fits :
    (max : ℕ) (headers : List (Text × Text))
    → max < u64_max
    → header_limit_layer max headers ≡ leb (total_length headers) max
unfolding header_limit_layer
header_limit_layer-fits max headers h = ground (arith, add_entries-min 0 headers (omega arith))
