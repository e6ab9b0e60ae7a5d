-- ===== src/Ring.antt =====
-- pkg/metrics_state.go, `floatRing` and `timeRing`: the last `ring_size` samples in a fixed array.
-- The insertion counter `n` is not wrapped: it would take 2 ^ 63 insertions.
pub mod Window
pub mod Mean
use circuit_breaker.Base.{
  ℕ, zero, suc, ◌+◌, ◌-◌, ◌%◌, List, [], ◌∷◌, if◌then◌else◌, leb, ◌==◌, get_or, set, replicate,
}
use circuit_breaker.Base.Int.{pos}
use circuit_breaker.Float.{Float}
use Prim.Native.Nat.{min}

abbrev pub ring_size : ℕ
ring_size = 20

-- The reads `r.vals[i%ringSize]` for `k` values of `i` from `i` on: the loop of both `slice` methods.
-- An array of `ring_size` entries is never read out of range, so the default `d` is not met.
pub collect {ℓ} : {A : Type ℓ} → A → List A → ℕ → ℕ → List A
collect d vals i zero = []
collect d vals i (suc k) = get_or vals (i % ring_size) d ∷ collect d vals (i + 1) k

pub record TimeRing (T : Type 0) : Type 0 where
  pub vals : List T
  pub n : ℕ

module _ {T : Type 0} where
  abbrev pub new_time_ring : T → TimeRing T
  new_time_ring zero_time = record { vals = replicate ring_size zero_time; n = 0 }

  unfoldable pub time_ring_add : T → TimeRing T → TimeRing T
  time_ring_add t r = record { vals = set r.vals (r.n % ring_size) t; n = r.n + 1 }

  unfoldable pub time_ring_slice : T → TimeRing T → List T
  unfolding collect
  time_ring_slice zero_time r = let c = min r.n ring_size in collect zero_time r.vals (r.n - c) c

pub record FloatRing (F : Type 0) : Type 0 where
  pub vals : List F
  pub n : ℕ
  pub total : F

module _ {F : Type 0} (fl : Float F) where
  abbrev pub new_float_ring : FloatRing F
  new_float_ring = record { vals = replicate ring_size fl.zero; n = 0; total = fl.zero }

  unfoldable pub float_ring_add : F → FloatRing F → FloatRing F
  float_ring_add v r =
      let idx = r.n % ring_size in
      let kept =
        if leb ring_size r.n then fl.sub r.total (get_or r.vals idx fl.zero) else r.total in
      record { vals = set r.vals idx v; n = r.n + 1; total = fl.add kept v }

  unfoldable pub float_ring_mean : FloatRing F → F
  float_ring_mean r =
      let c = min r.n ring_size in if c == 0 then fl.zero else fl.div r.total (fl.of_int (pos c))

  unfoldable pub float_ring_slice : FloatRing F → List F
  unfolding collect
  float_ring_slice r = let c = min r.n ring_size in collect fl.zero r.vals (r.n - c) c
