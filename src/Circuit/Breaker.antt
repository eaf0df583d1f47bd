-- ===== src/Circuit/Breaker.antt =====
-- The whole breaker: a host that is open, and what happens to the other hosts.
use mathlib.Core.Path.{subst}
use corx.Circuit.{
  HostCircuit, new_host, CircuitBreaker, transition_on_check, evict_if_needed, host_entry, check,
  record_success, record_failure,
}
use corx.Circuit.Open.{IsOpen, IsOpen-protected, IsOpen-check, IsOpen-failure}
use corx.Circuit.Eviction.{evict_if_needed-keeps}
use corx.Error.{ProxyError, err}
use corx.Prelude.{
  ℕ, ◌+◌, ◌≤◌, ◌<◌, ◌≡◌, refl, sym, ◌∙◌, Bool, true, false, some, List, [], ◌∷◌, arith, All, inl,
  inr, Text, text_eq, text_eq_refl, text_eq_iff, Bool-cases, Option-cases,
}
use corx.Table.{Table}

-- What a request or a settled hop does to the breaker.
pub data Op : Type 0 where
  check_at : Text → ℕ → Op
  success_of : Text → Op
  failure_of : Text → ℕ → Op

module _ (table : Table HostCircuit) where
  open table use {Map, get, insert, get-insert}

  run : CircuitBreaker table → Op → CircuitBreaker table
  run cb (check_at host now) = (check table cb host now).0
  run cb (success_of host) = record_success table cb host
  run cb (failure_of host now) = record_failure table cb host now

  pub run_all : CircuitBreaker table → List Op → CircuitBreaker table
  unfolding run
  run_all cb [] = cb
  run_all cb (op ∷ ops) = run_all (run cb op) ops

  pub record HostIsOpen (hosts : Map) (host : Text) (u : ℕ) : Type 0 where
    pub circuit : HostCircuit
    pub stored : get hosts host ≡ some circuit
    pub is_open : IsOpen u circuit

  -- An operation at a time before `u` that does not report a success of the host, and no failure of
  -- it that would reopen it for a shorter time.
  abbrev pub Undisturbed : Text → ℕ → ℕ → Op → Type 0
  Undisturbed host u open_duration (check_at j now) = now < u
  Undisturbed host u open_duration (success_of j) = text_eq j host ≡ false
  Undisturbed host u open_duration (failure_of j now) =
      (now < u) × (text_eq j host ≡ true → u ≤ now + open_duration)

  module _ (cb : CircuitBreaker table) (j : Text) (now : ℕ) where
    abbrev checked_entry : HostCircuit × Bool
    checked_entry =
        transition_on_check (host_entry table cb.hosts j) now cb.half_open_max cb.open_duration

    hosts_allowed :
        cb.enabled ≡ true
        → checked_entry.1 ≡ true
        → (check table cb j now).0.hosts
          ≡ evict_if_needed table cb.max_hosts now (insert cb.hosts j checked_entry.0)
    unfolding check
    hosts_allowed e a = ground arith

    hosts_off : cb.enabled ≡ false → (check table cb j now).0.hosts ≡ cb.hosts
    unfolding check
    hosts_off e = ground arith

    hosts_refused :
        cb.enabled ≡ true
        → checked_entry.1 ≡ false
        → (check table cb j now).0.hosts ≡ insert cb.hosts j checked_entry.0
    unfolding check
    hosts_refused e a = ground arith

  module _ (host : Text) (u : ℕ) where
    HostIsOpen-evict :
        (max_hosts now : ℕ) (m : Map)
        → now < u
        → HostIsOpen m host u
        → HostIsOpen (evict_if_needed table max_hosts now m) host u
    HostIsOpen-evict max_hosts now m h o =
        let (a, b) = IsOpen-protected u now o.circuit h o.is_open in
        record {
          circuit = o.circuit;
          stored = evict_if_needed-keeps table max_hosts now m host a b o.stored;
          is_open = o.is_open;
        }

    HostIsOpen-insert :
        (m : Map) (j : Text) (entry : HostCircuit)
        → (text_eq j host ≡ true → IsOpen u entry)
        → HostIsOpen m host u
        → HostIsOpen (insert m j entry) host u
    HostIsOpen-insert m j entry h o = elim (Bool-cases (text_eq j host)) [
      | inl e ↦ record { circuit = entry; stored = rw (get-insert, e); is_open = h e }
      | inr e ↦ record {
        circuit = o.circuit;
        stored = rw (get-insert, e) o.stored;
        is_open = o.is_open;
      }
    ]

    -- The entry that an operation on this very host reads.
    host_entry_self :
        (m : Map) (j : Text) (o : HostIsOpen m host u)
        → text_eq j host ≡ true
        → host_entry table m j ≡ o.circuit
    host_entry_self m j o e = let same = (text_eq_iff j host).0 e in rw (same, o.stored, host_entry)

    run-HostIsOpen :
        (cb : CircuitBreaker table) (op : Op)
        → Undisturbed host u cb.open_duration op
        → HostIsOpen cb.hosts host u
        → HostIsOpen (run cb op).hosts host u
    unfolding run record_success record_failure
    run-HostIsOpen cb (check_at j now) d o = elim (Bool-cases cb.enabled) [
      | inr e ↦ rw (hosts_off cb j now e) o
      | inl e ↦
          elim (Bool-cases
            (transition_on_check (host_entry table cb.hosts j) now cb.half_open_max
              cb.open_duration).1) [
                | inl allowed ↦
                    rw (hosts_allowed cb j now e allowed)
                      (HostIsOpen-evict cb.max_hosts now _ d (checked e))
                | inr refused ↦ rw (hosts_refused cb j now e refused) (checked e)
              ]
    ]
      where
        checked :
            cb.enabled ≡ true
            → HostIsOpen
                (insert cb.hosts j
                  (transition_on_check
                    (host_entry table cb.hosts j)
                    now
                    cb.half_open_max
                    cb.open_duration).0)
                host
                u
        checked e =
            HostIsOpen-insert cb.hosts j _
              (λ same.
                rw
                  (
                    host_entry_self cb.hosts j o same,
                    IsOpen-check u now cb.half_open_max cb.open_duration o.circuit d o.is_open,
                  )
                  o.is_open)
              o
    run-HostIsOpen cb (success_of j) d o = elim (Bool-cases cb.enabled) [
      | inr e ↦ rw e o
      | inl e ↦ elim (Option-cases (get cb.hosts j)) [
        | inl absent ↦ rw (e, absent) o
        | inr (c, found) ↦ rw (e, found) (HostIsOpen-insert cb.hosts j new_host (λ same. cc) o)
      ]
    ]
    run-HostIsOpen cb (failure_of j now) d o = elim (Bool-cases cb.enabled) [
      | inr e ↦ rw e o
      | inl e ↦ rw e (
          HostIsOpen-evict cb.max_hosts now _ d.0 (
            HostIsOpen-insert cb.hosts j _
              (λ same. rw (host_entry_self cb.hosts j o same) (
                IsOpen-failure u now cb.window cb.failure_threshold cb.open_duration o.circuit
                  (d.1 same) o.is_open))
              o))
    ]

    run_settings :
        (cb : CircuitBreaker table) (op : Op)
        → ((run cb op).open_duration ≡ cb.open_duration) × ((run cb op).enabled ≡ cb.enabled)
    unfolding run check record_success record_failure
    run_settings cb (check_at j now) = ground arith
    run_settings cb (success_of j) = ground arith
    run_settings cb (failure_of j now) = ground arith

    run_all-HostIsOpen :
        (cb : CircuitBreaker table) (open_duration : ℕ) (ops : List Op)
        → cb.open_duration ≡ open_duration
        → All (Undisturbed host u open_duration) ops
        → HostIsOpen cb.hosts host u
        → HostIsOpen (run_all cb ops).hosts host u × ((run_all cb ops).enabled ≡ cb.enabled)
    unfolding run_all
    run_all-HostIsOpen cb od [] s d o = (o, refl)
    run_all-HostIsOpen cb od (op ∷ ops) s d o =
        let (same, on) = run_settings cb op in
        let (o', on') =
          run_all-HostIsOpen (run cb op) od ops (same ∙ s) d.1
            (run-HostIsOpen cb op (subst (λ x. Undisturbed host u x op) (sym s) d.0) o) in
        (o', on' ∙ on)

    check-HostIsOpen :
        (cb : CircuitBreaker table) (now : ℕ)
        → cb.enabled ≡ true
        → now < u
        → HostIsOpen cb.hosts host u
        → (check table cb host now).1 ≡ err (ProxyError.circuit_open host)
    unfolding check
    check-HostIsOpen cb now e h o = rw (
      e,
      host_entry_self cb.hosts host o (text_eq_refl host),
      IsOpen-check u now cb.half_open_max cb.open_duration o.circuit h o.is_open,
    )

  -- While a host is open until the time `u`, a request to it is refused, whatever was done to the
  -- breaker before `u` in between, for any hosts and in any order: checks, failures, successes of
  -- other hosts, and the evictions that they cause. Excluded are a late success of the host itself,
  -- and a late failure of it that would end before `u`.
  pub check-refused :
      (cb : CircuitBreaker table) (host : Text) (u now : ℕ) (ops : List Op)
      → cb.enabled ≡ true
      → HostIsOpen cb.hosts host u
      → All (Undisturbed host u cb.open_duration) ops
      → now < u
      → (check table (run_all cb ops) host now).1 ≡ err (ProxyError.circuit_open host)
  check-refused cb host u now ops e o d h =
      let (o', on) = run_all-HostIsOpen host u cb cb.open_duration ops refl d o in
      check-HostIsOpen host u (run_all cb ops) now (on ∙ e) h o'
