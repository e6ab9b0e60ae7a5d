-- ===== src/Tests/Server.antt =====
-- Runs of the fake server.
use Prim.Native.Nat.{max}
use circuit_breaker.Base.{ℕ, ◌+◌, ◌-◌, ◌^◌, ◌≤◌, ◌<◌, ◌≡◌, List, [], ◌∷◌, some, none, arith}
use circuit_breaker.Base.Int.{pos}
use circuit_breaker.Server.{new_fake_server, set_delay, handle_begin, delay_of, listening}
use circuit_breaker.Server.History.{
  Event, arrive, leave, second, delays, binds, server_of, Agrees, server_of-Agrees,
}
use circuit_breaker.Server.Delay.{delay_of-set_delay}

-- The newest event first.
abbrev visits : List Event
visits =
    leave
    ∷ second
    ∷ arrive
    ∷ leave
    ∷ delays (pos 5) (pos 3)
    ∷ arrive
    ∷ arrive
    ∷ binds (listening "127.0.0.1:0")
    ∷ []

server_of-Agrees_example : Agrees (server_of (pos 7) visits) visits
server_of-Agrees_example = server_of-Agrees (pos 7) visits (omega arith, (omega arith, tt))

abbrev half : ℕ → ℕ
half k = k - 1

delay_of-set_delay_example :
    (9 - 4 + 1 < 2 ^ 63
      → (d : ℕ) × (delay_of half
            (handle_begin (set_delay (pos 4) (pos 9) (new_fake_server (pos 0)))).0
          ≡ some (pos d))
        × (4 ≤ d)
        × (d ≤ max 4 9))
    × (9 - 4 + 1 ≡ 2 ^ 63
        → delay_of half (handle_begin (set_delay (pos 4) (pos 9) (new_fake_server (pos 0)))).0
          ≡ none)
delay_of-set_delay_example =
    delay_of-set_delay half 4 9 (new_fake_server (pos 0)) (λ k h. omega arith) (omega arith)
      (omega arith)
