-- ===== src/Shared/Probes.antt =====
-- The probes among calls of `Do` that interleave action by action.
use circuit_breaker.Base.{ℕ, ◌<◌, ◌^◌, ◌≡◌, some, List, [], map, arith}
use circuit_breaker.Base.Int.{ℤ, pos, ◌≤ℤ◌, ◌<ℤ◌}
use circuit_breaker.Breaker.{Breaker, state_half_open, state_closed, new_breaker_state}
use circuit_breaker.Breaker.Concurrent.{probes_of, probes_bounded}
use circuit_breaker.Shared.{Call, System, Reach}
use circuit_breaker.Shared.Machine.{calls-Reach}

-- The calls in flight that were let in as probes of a generation.
abbrev pub probes_in : ℕ → List Call → ℕ
probes_in gen calls = probes_of gen (map (λ (call : Call). call.admission) calls)

-- Take a breaker with a new machine and no calls. In every state that fewer than 2 ^ 64 steps reach
-- from it, however the actions of the calls of `Do`, the ticks and `Stop` interleave, it still has
-- a machine. While that is half-open, its counter of probes is the number of the calls in flight
-- that were let in as probes of its generation, and these are at most as many as the machine
-- allows. While it is closed, it has counted fewer failures in a row than its threshold.
pub probes_in_flight :
    (zero_time threshold open_for max_probes : ℤ) {s0 : System} {n : ℕ} {s : System}
    → s0.circuit.state ≡ some (new_breaker_state zero_time threshold open_for max_probes)
    → s0.calls ≡ []
    → n < 2 ^ 64
    → Reach s0 n s
    → (b : Breaker) × (s.circuit.state ≡ some b)
      × (b.cur ≡ state_half_open
          → (b.probes ≡ pos (probes_in b.gen s.calls))
            × (pos (probes_in b.gen s.calls)
                ≤ℤ (new_breaker_state zero_time threshold open_for max_probes).max_probes))
      × (b.cur ≡ state_closed
          → b.consec_fails <ℤ (new_breaker_state zero_time threshold open_for max_probes).threshold)
probes_in_flight z t o m e none_yet small r =
    let (b, k, now, fewer, reached) = calls-Reach (new_breaker_state z t o m) e none_yet r in
    let v = probes_bounded z t o m (omega (arith, fewer, small)) reached in
    (b, now, v.0, λ h. (v.1 h).1)
