-- ===== src/Circuit.antt =====
-- crates/corx-core/src/policy/circuit.rs and config/circuit.rs: the circuit breaker that each
-- upstream host has. Times are numbers of ticks of the monotonic clock, which the caller reads and
-- passes; `duration_since` stops at 0, as subtraction does here. The map of hosts is a `Table`.
-- Counters of metrics and log lines have no effect on the state and are left out.
pub mod Host
pub mod Probes
pub mod Trip
pub mod Eviction
pub mod Open
pub mod Breaker
mod Tests
use Prim.Native.Nat.{min, max}
use corx.Error.{ProxyError, Result, ok, err}
use corx.Prelude.{
  ℕ, ◌+◌, ◌-◌, Bool, true, false, ◌||◌, ◌&&◌, not, none, some, List, [], ◌∷◌, ◌++◌, Text, ltb, leb,
  ◌==◌, if◌then◌else◌, length, filter, is_empty,
}
use corx.Table.{Table}

abbrev pub u32_max : ℕ
u32_max = 4294967295

-- `CircuitBreakerConfig`
pub record CircuitBreakerConfig : Type 0 where
  pub enabled : Bool
  pub failure_threshold : ℕ
  pub window : ℕ
  pub open_duration : ℕ
  pub half_open_max : ℕ
  pub count_5xx : Bool
  pub max_hosts : ℕ

-- `State`; `Open { until }` and `HalfOpen { probes, since }`
pub data State : Type 0 where
  closed : State
  open_until : ℕ → State
  half_open : ℕ → ℕ → State

pub record HostCircuit : Type 0 where
  pub state : State
  -- oldest first
  pub failures : List ℕ

-- `HostCircuit::new`
abbrev pub new_host : HostCircuit
new_host = record { state = closed; failures = [] }

abbrev pub closed_state : State → Bool
closed_state closed = true
closed_state _ = false

abbrev pub half_open_state : State → Bool
half_open_state (half_open probes since) = true
half_open_state _ = false

abbrev pub expired_state : State → ℕ → Bool
expired_state (open_until until) now = leb until now
expired_state _ now = false

unfoldable pub is_idle_closed : HostCircuit → Bool
is_idle_closed c = closed_state c.state && is_empty c.failures

unfoldable pub is_closed : HostCircuit → Bool
is_closed c = closed_state c.state

unfoldable pub is_expired_open : ℕ → HostCircuit → Bool
is_expired_open now c = expired_state c.state now

-- `transition_on_check`; the arms of the `match` in their order
unfoldable pub check_state : State → ℕ → ℕ → ℕ → State × Bool
check_state closed now half_open_max open_duration = (closed, true)
check_state (open_until until) now half_open_max open_duration =
    if leb until now then (half_open 1 now, true) else (open_until until, false)
check_state (half_open probes since) now half_open_max open_duration =
    if ltb probes half_open_max
    then (half_open (min (probes + 1) u32_max) since, true)
    else if leb open_duration (now - since)
    then (half_open 1 now, true)
    else (half_open probes since, false)

unfoldable pub transition_on_check : HostCircuit → ℕ → ℕ → ℕ → HostCircuit × Bool
unfolding check_state
transition_on_check entry now half_open_max open_duration =
    let (state', allowed) = check_state entry.state now half_open_max open_duration in
    (record entry { state = state' }, allowed)

-- `entry.failures.retain(..)` and `push`
unfoldable pub recent : List ℕ → ℕ → ℕ → List ℕ
recent failures now window = filter (λ t. leb (now - t) window) failures ++ now ∷ []

unfoldable pub record_failure_on : HostCircuit → ℕ → ℕ → ℕ → ℕ → HostCircuit × Bool
record_failure_on entry now window threshold open_duration =
    let failures' = recent entry.failures now window in
    let failure_count = min (length failures') u32_max in
    if half_open_state entry.state || leb threshold failure_count
    then (record { state = open_until (now + open_duration); failures = [] }, true)
    else (record entry { failures = failures' }, false)

-- the closure that `evict_matching` gives to `retain`; `removed` is the counter that it mutates.
-- It counts entries of a map, so `saturating_add` is plain addition
unfoldable pub keep_or_remove : ℕ → (HostCircuit → Bool) → ℕ → HostCircuit → Bool × ℕ
keep_or_remove excess pred removed circuit =
    if leb excess removed || not (pred circuit) then (true, removed) else (false, removed + 1)

-- `CircuitHop`; the breaker that it borrows is passed along
pub record CircuitHop : Type 0 where
  pub host : Text
  pub settled : Bool

module _ (table : Table HostCircuit) where
  open table use {Map, empty, get, insert, len, retain}

  -- `Inner`
  pub record CircuitBreaker : Type 0 where
    pub enabled : Bool
    pub failure_threshold : ℕ
    pub window : ℕ
    pub open_duration : ℕ
    pub half_open_max : ℕ
    pub count_5xx : Bool
    pub max_hosts : ℕ
    pub hosts : Map

  unfoldable pub from_config : CircuitBreakerConfig → CircuitBreaker
  from_config cfg = record {
    enabled = cfg.enabled;
    failure_threshold = max cfg.failure_threshold 1;
    window = cfg.window;
    open_duration = cfg.open_duration;
    half_open_max = max cfg.half_open_max 1;
    count_5xx = cfg.count_5xx;
    max_hosts = max cfg.max_hosts 1;
    hosts = empty;
  }

  -- `self.inner.hosts.entry(host).or_insert_with(HostCircuit::new)`
  abbrev pub host_entry : Map → Text → HostCircuit
  host_entry hosts host = elim (get hosts host) [ none ↦ new_host | some c ↦ c ]

  unfoldable pub evict_matching : ℕ → (HostCircuit → Bool) → Map → Map
  evict_matching max_hosts pred hosts =
      let excess = len hosts - max_hosts in
      if excess == 0 then hosts else retain (keep_or_remove excess pred) 0 hosts

  -- a later pass, which runs only while the map is too large
  unfoldable pub evict_again : ℕ → (HostCircuit → Bool) → Map → Map
  evict_again max_hosts pred hosts =
      if ltb max_hosts (len hosts) then evict_matching max_hosts pred hosts else hosts

  unfoldable pub evict_if_needed : ℕ → ℕ → Map → Map
  evict_if_needed max_hosts now hosts =
      if leb (len hosts) max_hosts
      then hosts
      else evict_again max_hosts is_closed (
          evict_again max_hosts (is_expired_open now)
            (evict_matching max_hosts is_idle_closed hosts))

  unfoldable pub check : CircuitBreaker → Text → ℕ → CircuitBreaker × Result (Unit {0})
  check cb host now =
      if not cb.enabled
      then (cb, ok tt)
      else let (entry, allowed) =
          transition_on_check (host_entry cb.hosts host) now cb.half_open_max cb.open_duration in
        let hosts' = insert cb.hosts host entry in
        if allowed
        then (record cb { hosts = evict_if_needed cb.max_hosts now hosts' }, ok tt)
        else (record cb { hosts = hosts' }, err (ProxyError.circuit_open host))

  -- an absent host stays absent
  unfoldable pub record_success : CircuitBreaker → Text → CircuitBreaker
  record_success cb host = if not cb.enabled then cb else elim (get cb.hosts host) [
    | none ↦ cb
    | some c ↦ record cb { hosts = insert cb.hosts host new_host }
  ]

  unfoldable pub record_failure : CircuitBreaker → Text → ℕ → CircuitBreaker
  record_failure cb host now =
      if not cb.enabled
      then cb
      else let (entry, opened) =
          record_failure_on (host_entry cb.hosts host) now cb.window cb.failure_threshold
            cb.open_duration in
        record cb { hosts = evict_if_needed cb.max_hosts now (insert cb.hosts host entry) }

  unfoldable pub admit : CircuitBreaker → Text → ℕ → CircuitBreaker × Result CircuitHop
  admit cb host now =
      let (cb', outcome) = check cb host now in
      elim outcome [
        | ok _ ↦ (cb', ok (record { host = host; settled = false }))
        | err e ↦ (cb', err e)
      ]

  -- `Drop for CircuitHop`
  unfoldable pub drop_hop : CircuitBreaker → CircuitHop → ℕ → CircuitBreaker
  drop_hop cb hop now = if not hop.settled then record_failure cb hop.host now else cb

  -- `CircuitHop::success` and `failure` take the hop by value, so it is dropped at their end
  unfoldable pub success : CircuitBreaker → CircuitHop → ℕ → CircuitBreaker
  success cb hop now = drop_hop (record_success cb hop.host) (record hop { settled = true }) now

  unfoldable pub failure : CircuitBreaker → CircuitHop → ℕ → CircuitBreaker
  failure cb hop now = drop_hop (record_failure cb hop.host now) (record hop { settled = true }) now
