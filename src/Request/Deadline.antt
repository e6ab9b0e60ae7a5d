-- ===== src/Request/Deadline.antt =====
-- The context of `WithDefaultTimeout` when its deadline may pass at any time: in pkg/circuitbreaker.go
-- the beginning of `Do`, and `cancelOnClose`.
use circuit_breaker.Base.{◌≡◌, ◌≢◌, List, [], ◌∷◌, ◌⊎◌}
use circuit_breaker.Circuit.{Circuit}
use circuit_breaker.Request.{Request}
use circuit_breaker.Request.Context.{Context, unset, expired, Event, does, deadline}

-- The same context, or the deadline has ended it.
abbrev MayExpire : Context → Context → Type 0
MayExpire c plain = (c ≡ plain) ⊎ ((c ≡ expired) × (plain ≢ unset))

-- The deadline does not pass.
abbrev pub IsTimely : List Event → Type 0
IsTimely [] = Unit
IsTimely (does a ∷ evs) = IsTimely evs
IsTimely (deadline ∷ evs) = ⊥
