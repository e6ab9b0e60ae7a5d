-- ===== src/Manager.antt =====
-- pkg/manager.go: the registry of named breakers. A breaker is an object that several holders share, so
-- the registry holds its index in the list `objects` of all breakers ever created. Each method runs
-- under the manager's lock; `Stop`, which `Remove` and `StopAll` call outside it, only changes objects.
pub mod Registry
pub mod Lifecycle
pub mod Stopping
pub mod Shutdown
use Prim.Native.String.{String}
use circuit_breaker.Base.{
  ℕ, suc, Bool, true, false, ◌&&◌, Option, none, some, List, [], ◌∷◌, ◌++◌, if◌then◌else◌, length,
  get_elem?, set,
}
use circuit_breaker.Base.Int.{ℤ, eqb_ℤ}
use circuit_breaker.Float.{Float}
use circuit_breaker.Dict.{lookup, insert, delete, keys}
use circuit_breaker.Circuit.{Circuit, new_circuit_breaker, stop}

pub record BreakerConfig : Type 0 where
  pub max_concurrent : ℤ
  pub max_requests : ℤ
  pub window_seconds : ℤ
  pub max_retries : ℤ

-- `got == want` on the struct.
abbrev pub same_config : BreakerConfig → BreakerConfig → Bool
same_config a b =
    eqb_ℤ a.max_concurrent b.max_concurrent
    && (eqb_ℤ a.max_requests b.max_requests
        && (eqb_ℤ a.window_seconds b.window_seconds && eqb_ℤ a.max_retries b.max_retries))

pub record Manager : Type 0 where
  pub cb : List (String × ℕ)
  pub cfg : List (String × BreakerConfig)
  pub objects : List Circuit

-- `divergent` is the error of two configurations, `inconsistent` that of half a rate limit, and
-- `foreign_manager` that of a manager of another package.
pub data ManagerError : Type 0 where
  divergent : String → BreakerConfig → BreakerConfig → ManagerError
  inconsistent : String → ℤ → ℤ → ManagerError
  foreign_manager : ManagerError

pub data Result {ℓ} (A : Type ℓ) : Type ℓ where
  ok : A → Result A
  err : ManagerError → Result A

unfoldable pub new_manager : List Circuit → Manager
new_manager objects = record { cb = []; cfg = []; objects = objects }

-- A new object, registered under the name with its configuration.
unfoldable pub register : String → Circuit → BreakerConfig → Manager → ℕ × Manager
register name c config m =
    let handle = length m.objects in
    (
      handle,
      record {
        cb = insert name handle m.cb;
        cfg = insert name config m.cfg;
        objects = m.objects ++ c ∷ [];
      },
    )

-- The zero value of `breakerConfig`, which `m.cfg[name]` gives for a name that is not there.
abbrev pub config_of : String → Manager → Option BreakerConfig
config_of name m = lookup name m.cfg

module _ {F : Type 0} (fl : Float F) where
  abbrev pub make : String → BreakerConfig → Circuit
  make name c =
      new_circuit_breaker fl name c.max_concurrent c.max_requests c.window_seconds c.max_retries

  unfoldable pub get_or_create : String → BreakerConfig → Manager → ℕ × Manager
  get_or_create name config m = elim (lookup name m.cb) [
    | some handle ↦ (handle, m)
    | none ↦ register name (make name config) config m
  ]

  unfoldable pub get_or_create_strict :
      BreakerConfig → String → BreakerConfig → Manager → Result ℕ × Manager
  get_or_create_strict zero_config name want m = elim (lookup name m.cb) [
    | some handle ↦
        let got : BreakerConfig = elim (config_of name m) [ none ↦ zero_config | some c ↦ c ] in
        if same_config got want then (ok handle, m) else (err (divergent name got want), m)
    | none ↦ let (handle, m') = register name (make name want) want m in (ok handle, m')
  ]

unfoldable pub list : Manager → List String
list m = keys m.cb

unfoldable pub get_circuit_breaker : String → Manager → Option ℕ
get_circuit_breaker name m = lookup name m.cb

-- `cb.Stop()` on a shared object.
unfoldable pub stop_object : ℕ → List Circuit → List Circuit
stop_object handle objects = elim (get_elem? objects handle) [
  | none ↦ objects
  | some c ↦ set objects handle (stop c)
]

unfoldable pub remove : String → Manager → Manager
remove name m = elim (lookup name m.cb) [
  | none ↦ m
  | some handle ↦ record {
    cb = delete name m.cb;
    cfg = delete name m.cfg;
    objects = stop_object handle m.objects;
  }
]

unfoldable pub stop_each : List (String × ℕ) → List Circuit → List Circuit
stop_each [] objects = objects
stop_each ((name, handle) ∷ cbs) objects = stop_each cbs (stop_object handle objects)

unfoldable pub stop_all : Manager → Manager
stop_all m = record m { objects = stop_each m.cb m.objects }
