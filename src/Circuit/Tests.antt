-- ===== src/Circuit/Tests.antt =====
-- The tests of crates/corx-core/src/policy/circuit.rs at concrete times, and the theorems at inputs
-- that meet their conditions.
use corx.Circuit.{
  CircuitBreakerConfig, closed, open_until, half_open, HostCircuit, CircuitBreaker, new_host,
  from_config, check, record_success, record_failure, check_state, transition_on_check,
  record_failure_on, recent, evict_matching, evict_again, evict_if_needed, keep_or_remove,
  is_closed, is_idle_closed, is_expired_open,
}
use corx.Circuit.Breaker.{
  Op, check_at, success_of, failure_of, Undisturbed, HostIsOpen, run_all, check-refused,
}
use corx.Circuit.Eviction.{evict_if_needed_bound}
use corx.Circuit.Host.{transition_on_check-allows}
use corx.Circuit.Probes
use corx.Circuit.Trip.{fail_at, fail_at-trips}
use corx.Error.{ProxyError, ok, err}
use corx.Prelude.{
  ◌≤◌, ◌≡◌, refl, ◌⊎◌, true, false, List, [], ◌∷◌, arith, length, All, Text, codes, text_eq,
}
use corx.Table.{Table, find_key, retain_list}
use corx.Table.Assoc.{assoc_table, put}

program : Unit {0}
unfolding check record_success record_failure check_state transition_on_check record_failure_on
    recent evict_matching evict_again evict_if_needed keep_or_remove is_closed is_idle_closed
    is_expired_open from_config find_key retain_list put text_eq
program = tt

abbrev cfg : CircuitBreakerConfig
cfg = record {
  enabled = true;
  failure_threshold = 3;
  window = 60;
  open_duration = 50;
  half_open_max = 1;
  count_5xx = true;
  max_hosts = 2;
}

abbrev table : Table HostCircuit
table = assoc_table HostCircuit

abbrev host : Text
host = codes "h.test"

abbrev opened : HostCircuit
opened = record { state = open_until 53; failures = [] }

abbrev tripped : CircuitBreaker table
tripped = record {
  enabled = true;
  failure_threshold = 3;
  window = 60;
  open_duration = 50;
  half_open_max = 1;
  count_5xx = true;
  max_hosts = 2;
  hosts = (host, opened) ∷ [];
}

-- Three failures open the host.
trips_after_threshold_failures :
    record_failure table
      (record_failure table (record_failure table (from_config table cfg) host 1) host 2)
      host
      3
    ≡ tripped
unfolding program
trips_after_threshold_failures = refl

-- After the open time one probe is granted, and the next check is refused.
half_open_probe :
    ((check table tripped host 53).1 ≡ ok tt)
    × ((check table (check table tripped host 53).0 host 54).1 ≡ err (ProxyError.circuit_open host))
unfolding program
half_open_probe = (refl, refl)

-- A success closes the host and forgets its failures.
success_closes : (record_success table tripped host).hosts ≡ (host, new_host) ∷ []
unfolding program
success_closes = refl

tripped-HostIsOpen : HostIsOpen table tripped.hosts host 53
unfolding program
tripped-HostIsOpen = record {
  circuit = opened;
  stored = refl;
  is_open = record { until = 53; state = refl; lasts = omega arith };
}

abbrev others : List Op
others =
    check_at (codes "a") 11
    ∷ check_at (codes "b") 12
    ∷ success_of (codes "a")
    ∷ failure_of host 13
    ∷ []

others-Undisturbed : All (Undisturbed table host 53 50) others
unfolding text_eq
others-Undisturbed = (omega arith, (omega arith, (refl, ((omega arith, λ _. omega arith), tt))))

check-refused_example :
    (check table (run_all table tripped others) host 40).1 ≡ err (ProxyError.circuit_open host)
check-refused_example =
    check-refused table tripped host 53 40 others refl tripped-HostIsOpen others-Undisturbed
      (omega arith)

abbrev crowded : List (Text × HostCircuit)
crowded = (codes "a", new_host) ∷ (host, opened) ∷ (codes "b", new_host) ∷ []

evict_if_needed_bound_example :
    (length (evict_if_needed table 1 10 crowded) ≤ 1)
    ⊎ All
        (λ e. (is_closed e.1 ≡ false) × (is_expired_open 10 e.1 ≡ false))
        (evict_if_needed table 1 10 crowded)
evict_if_needed_bound_example = evict_if_needed_bound table 1 10 crowded

transition_on_check-allows_example :
    (transition_on_check (record { state = half_open 2 5; failures = [] }) 60 2 50).1 ≡ true
transition_on_check-allows_example =
    transition_on_check-allows (record { state = half_open 2 5; failures = [] }) 60 2 50
      (omega arith)

check_at-budget_example : (Probes.check_at 2 50 (open_until 53) (60 ∷ 61 ∷ 62 ∷ [])).1 ≤ 2
check_at-budget_example =
    Probes.check_at-budget 2 50 53 60 (60 ∷ 61 ∷ 62 ∷ []) (omega arith) (omega arith) (omega arith)

fail_at-trips_example :
    ((fail_at 60 3 50 new_host (1 ∷ 2 ∷ [])).state ≡ closed)
    × ((record_failure_on (fail_at 60 3 50 new_host (1 ∷ 2 ∷ [])) 3 60 3 50).0
        ≡ record { state = open_until 53; failures = [] })
fail_at-trips_example =
    fail_at-trips 60 3 50 1 (1 ∷ 2 ∷ []) 3 (omega arith) (omega arith) (omega arith) (omega arith)
