-- ===== src/Shared/Tokens.antt =====
-- What an action does to the bucket of the breaker.
use circuit_breaker.Base.{ℕ, ◌+◌, ◌≡◌, Bool, true, false, none, some, arith}
use circuit_breaker.Circuit.{Circuit}
use circuit_breaker.Request.{
  Action, asked, acquired, released, took_token, rewound, sent, drained, recorded, gate_extended,
  slept, reported, timeout_set, timeout_cancelled, timeout_tied,
}
use circuit_breaker.Request.Tally.{one_token}
use circuit_breaker.Shared.{effect}

abbrev pub is_limited : Circuit → Bool
is_limited c = elim c.tokens [ none ↦ false | some _ ↦ true ]

abbrev pub tokens_held : Circuit → ℕ
tokens_held c = elim c.tokens [ none ↦ 0 | some ch ↦ ch.held ]

abbrev pub tokens_room : Circuit → ℕ
tokens_room c = elim c.tokens [ none ↦ 0 | some ch ↦ ch.capacity ]

-- What an action leaves of the bucket.
unfoldable pub Moves : ℕ → Circuit → Circuit → Type 0
Moves k c c' =
    (tokens_held c' + k ≡ tokens_held c)
    × (tokens_room c' ≡ tokens_room c)
    × (is_limited c' ≡ is_limited c)
    × (c'.refilling ≡ c.refilling)
    × (c'.tokens_per_tick ≡ c.tokens_per_tick)

pub effect-Moves : (a : Action) (c c' : Circuit) → effect a c ≡ some c' → Moves (one_token a) c c'
unfolding effect Moves
effect-Moves (asked now) c c' e =
    (ground arith, ground arith, ground arith, ground arith, ground arith)
effect-Moves acquired c c' e =
    (ground arith, ground arith, ground arith, ground arith, ground arith)
effect-Moves released c c' e =
    (ground arith, ground arith, ground arith, ground arith, ground arith)
effect-Moves took_token c c' e =
    (ground arith, ground arith, ground arith, ground arith, ground arith)
effect-Moves rewound c c' e = (ground arith, ground arith, ground arith, ground arith, ground arith)
effect-Moves sent c c' e = (ground arith, ground arith, ground arith, ground arith, ground arith)
effect-Moves drained c c' e = (ground arith, ground arith, ground arith, ground arith, ground arith)
effect-Moves (recorded u) c c' e =
    (ground arith, ground arith, ground arith, ground arith, ground arith)
effect-Moves (gate_extended g) c c' e =
    (ground arith, ground arith, ground arith, ground arith, ground arith)
effect-Moves (slept d) c c' e =
    (ground arith, ground arith, ground arith, ground arith, ground arith)
effect-Moves (reported p g t o) c c' e =
    (ground arith, ground arith, ground arith, ground arith, ground arith)
effect-Moves (timeout_set d) c c' e =
    (ground arith, ground arith, ground arith, ground arith, ground arith)
effect-Moves timeout_cancelled c c' e =
    (ground arith, ground arith, ground arith, ground arith, ground arith)
effect-Moves timeout_tied c c' e =
    (ground arith, ground arith, ground arith, ground arith, ground arith)
