-- ===== src/Shared/Limits.antt =====
-- The limits that hold for the calls on a breaker which was made with options of the package.
use Prim.Native.String.{String}
use circuit_breaker.Base.{
  ℕ, ◌+◌, ◌*◌, ◌^◌, ◌≤◌, ◌<◌, ◌≡◌, refl, ap, ◌∙◌, Bool, Bool-cases, inl, inr, if◌then◌else◌, Option,
  none, some, List, [], ◌∷◌, All, arith,
}
use mathlib.Core.Path.{subst}
use circuit_breaker.Base.Int.{ℤ, pos, ltb_ℤ, leb_ℤ}
use circuit_breaker.Float.{Float}
use circuit_breaker.Errors.{Err}
use circuit_breaker.Circuit.{Circuit, new_circuit, init_token_bucket, size_of}
use circuit_breaker.Circuit.Setup.{IsReady, init_token_bucket-IsReady}
use circuit_breaker.Options.{
  Setting, with_breaker, with_status_code_failure, with_retry_policy, with_exponential_backoff,
  with_burst, with_retry_after, with_default_timeout, apply_settings,
  new_circuit_breaker_with_options,
}
use circuit_breaker.Shared.{System, Reach}
use circuit_breaker.Shared.Slots.{in_use, room, slots_of, slots_exact}
use circuit_breaker.Shared.Tokens.{tokens_held}
use circuit_breaker.Shared.Rate.{sends, added, sends_in_window}
use circuit_breaker.Shared.Progress.Ready.{idle_system, ready-IsServed, new_room, requested}

-- The options of the package, and nil.
pub data IsOption : Option Setting → Type 0 where
  no_option : IsOption none
  breaker :
      (zero_time failures open_for probes : ℤ)
      → IsOption (some (with_breaker zero_time failures open_for probes))
  status_code_failure : (min : ℤ) → IsOption (some (with_status_code_failure min))
  retry_policy : (fn : Option (Err → Bool)) → IsOption (some (with_retry_policy fn))
  exponential_backoff :
      (base max : ℤ) (jitter : Bool) → IsOption (some (with_exponential_backoff base max jitter))
  burst : (n : ℤ) → IsOption (some (with_burst n))
  retry_after : (max_wait : ℤ) → IsOption (some (with_retry_after max_wait))
  default_timeout : (d : ℤ) → IsOption (some (with_default_timeout d))

-- What the limits stand on.
record SameLimits (c c' : Circuit) : Type 0 where
  sem : c'.sem ≡ c.sem
  max_requests : c'.max_requests ≡ c.max_requests
  window_seconds : c'.window_seconds ≡ c.window_seconds

option-SameLimits :
    (opt : Option Setting) (c : Circuit) → IsOption opt → SameLimits c (apply_settings (opt ∷ []) c)
unfolding apply_settings with_breaker with_status_code_failure with_retry_policy
    with_exponential_backoff with_burst with_retry_after with_default_timeout
option-SameLimits opt c no_option = record {
  sem = refl;
  max_requests = refl;
  window_seconds = refl;
}
option-SameLimits opt c (breaker z f o p) = record {
  sem = refl;
  max_requests = refl;
  window_seconds = refl;
}
option-SameLimits opt c (status_code_failure min) = record {
  sem = refl;
  max_requests = refl;
  window_seconds = refl;
}
option-SameLimits opt c (retry_policy fn) = record {
  sem = refl;
  max_requests = refl;
  window_seconds = refl;
}
option-SameLimits opt c (exponential_backoff b m j) = record {
  sem = refl;
  max_requests = refl;
  window_seconds = refl;
}
option-SameLimits opt c (burst n) = record {
  sem = refl;
  max_requests = refl;
  window_seconds = refl;
}
option-SameLimits opt c (retry_after w) = record {
  sem = refl;
  max_requests = refl;
  window_seconds = refl;
}
option-SameLimits opt c (default_timeout d) = record {
  sem = refl;
  max_requests = refl;
  window_seconds = refl;
}

apply_settings-SameLimits :
    (opts : List (Option Setting)) (c : Circuit)
    → All IsOption opts
    → SameLimits c (apply_settings opts c)
unfolding apply_settings
apply_settings-SameLimits [] c h = record { sem = refl; max_requests = refl; window_seconds = refl }
apply_settings-SameLimits (none ∷ opts) c h = apply_settings-SameLimits opts c h.1
apply_settings-SameLimits (some opt ∷ opts) c h =
    let one = option-SameLimits (some opt) c h.0 in
    let rest = apply_settings-SameLimits opts (opt c) h.1 in
    record {
      sem = rest.sem ∙ one.sem;
      max_requests = rest.max_requests ∙ one.max_requests;
      window_seconds = rest.window_seconds ∙ one.window_seconds;
    }

-- The burst that an option asks for, 1 at least; the other options leave it.
abbrev burst_of : (opt : Option Setting) → IsOption opt → ℤ → ℤ
burst_of _ (burst n) before = if ltb_ℤ n (pos 1) then pos 1 else n
burst_of _ no_option before = before
burst_of _ (breaker z f o p) before = before
burst_of _ (status_code_failure min) before = before
burst_of _ (retry_policy fn) before = before
burst_of _ (exponential_backoff b m j) before = before
burst_of _ (retry_after w) before = before
burst_of _ (default_timeout d) before = before

-- The burst that some options ask for: that of the last one that asks for any.
abbrev pub burst_asked : (opts : List (Option Setting)) → All IsOption opts → ℤ → ℤ
burst_asked [] h before = before
burst_asked (opt ∷ opts) h before = burst_asked opts h.1 (burst_of opt h.0 before)

option_burst :
    (opt : Option Setting) (c : Circuit) (h : IsOption opt)
    → (apply_settings (opt ∷ []) c).burst ≡ burst_of opt h c.burst
unfolding apply_settings with_breaker with_status_code_failure with_retry_policy
    with_exponential_backoff with_burst with_retry_after with_default_timeout
option_burst opt c no_option = refl
option_burst opt c (breaker z f o p) = refl
option_burst opt c (status_code_failure min) = refl
option_burst opt c (retry_policy fn) = refl
option_burst opt c (exponential_backoff b m j) = refl
option_burst opt c (burst n) = refl
option_burst opt c (retry_after w) = refl
option_burst opt c (default_timeout d) = refl

apply_settings_burst :
    (opts : List (Option Setting)) (c : Circuit) (h : All IsOption opts)
    → (apply_settings opts c).burst ≡ burst_asked opts h c.burst
unfolding apply_settings
apply_settings_burst [] c h = refl
apply_settings_burst (none ∷ opts) c h =
    apply_settings_burst opts c h.1 ∙ ap (burst_asked opts h.1) (option_burst none c h.0)
apply_settings_burst (some opt ∷ opts) c h =
    apply_settings_burst opts (opt c) h.1
    ∙ ap (burst_asked opts h.1) (option_burst (some opt) c h.0)

-- The tokens that the bucket starts with, at most: the burst, or the requests of a window without one.
abbrev pub allowance : ℕ → ℤ → ℕ
allowance m asked = if ltb_ℤ (pos 0) asked then size_of asked else m

capacity-allowance :
    (m s : ℕ) (c ready : Circuit) (v : IsReady m s c ready) → v.capacity ≤ allowance m c.burst
capacity-allowance m s c ready v =
    let same : ready.burst ≡ c.burst = ap (λ (x : Circuit). x.burst) v.kept in
    elim (Bool-cases (ltb_ℤ (pos 0) c.burst)) [
      | inl p ↦ elim (Bool-cases (leb_ℤ c.burst (pos 1_000_000))) [
        | inl small ↦ ground (arith, same, v.with_burst (ground arith) (ground arith))
        | inr big ↦ ground (arith, same, v.some_room)
      ]
      | inr none_set ↦ ground (arith, same, v.without_burst (ground arith))
    ]

-- At most `seats` calls hold a slot at once, and however the actions of the calls, the ticks and
-- `Stop` interleave, the requests sent are at most `top` more than the tokens that the ticks
-- offered.
abbrev pub KeepsLimits : ℕ → ℕ → Circuit → Type 0
KeepsLimits seats top c =
    (n : ℕ) (t : System) (r : Reach (idle_system c) n t)
    → (slots_of t.calls ≤ seats) × (sends r ≤ top + added r)

module _ {F : Type 0} (fl : Float F) where
  -- A breaker before its bucket is set up.
  pub init_token_bucket-limits :
      (mc m s : ℕ) (c : Circuit)
      → room c ≡ mc
      → in_use c ≡ 0
      → c.max_requests ≡ pos m
      → c.window_seconds ≡ pos s
      → 0 < mc
      → 0 < m
      → 0 < s
      → s * 1_000_000_000 < 2 ^ 63
      → KeepsLimits mc (allowance m c.burst) (init_token_bucket fl c)
  init_token_bucket-limits mc m s c seats free em es pc pm ps fits n t r =
      let ready = init_token_bucket fl c in
      let v = init_token_bucket-IsReady fl m s c em es pm ps fits in
      let (served, taken, size) = ready-IsServed m s c ready v (omega (arith, seats, pc)) in
      let slots = slots_exact (taken ∙ free) refl r in
      let rate = sends_in_window served.limited served.full r in
      let held : tokens_held ready ≡ v.capacity = ground (arith, v.full) in
      (
        omega (arith, slots.1, size, seats),
        omega (arith, rate.0, held, capacity-allowance m s c ready v),
      )

  -- A breaker that was made with options of the package lets in as many calls at once as it was
  -- asked to, and its calls send at most the burst of the options, or the requests of a window
  -- without one, more requests than the ticks offered tokens.
  pub new_circuit_breaker_with_options-limits :
      (name : String) (mc m s : ℕ) (retries : ℤ) (opts : List (Option Setting))
      → (h : All IsOption opts) → 0 < mc
      → 0 < m
      → 0 < s
      → s * 1_000_000_000 < 2 ^ 63
      → let ready =
          new_circuit_breaker_with_options fl name (pos mc) (pos m) (pos s) retries opts in
        KeepsLimits mc (allowance m (burst_asked opts h (pos 0))) ready
  unfolding new_circuit_breaker_with_options new_circuit
  new_circuit_breaker_with_options-limits name mc m s retries opts h pc pm ps fits =
      let c = new_circuit name (pos mc) (pos m) (pos s) retries in
      let made = apply_settings opts c in
      let same = apply_settings-SameLimits opts c h in
      let seats = new_room name mc (pos m) (pos s) retries pc in
      let asked_for = requested name mc m s retries in
      let asked_burst = apply_settings_burst opts c h in
      subst (λ x. KeepsLimits mc (allowance m x) (init_token_bucket fl made)) asked_burst
        (init_token_bucket-limits mc m s made (ground (arith, same.sem, seats.0))
          (ground (arith, same.sem, seats.1)) (same.max_requests ∙ asked_for.0)
          (same.window_seconds ∙ asked_for.1) pc pm ps fits)
