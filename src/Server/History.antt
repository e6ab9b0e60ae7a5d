-- ===== src/Server/History.antt =====
-- The server's counters against the history of its requests.
use Prim.Native.Nat.{max}
use circuit_breaker.Base.{ℕ, suc, ◌-◌, ◌≤◌, ◌<◌, ◌≡◌, refl, List, [], ◌∷◌, arith}
use circuit_breaker.Base.Int.{ℤ, pos, ◌+ℤ◌, ◌-ℤ◌}
use circuit_breaker.Server.{
  FakeServer, new_fake_server, set_delay, handle_begin, handle_end, reset_tick, bind, close,
  Listened, listening, rejecting,
}

-- What happens to the server: its critical sections in the order in which they take the mutex.
pub data Event : Type 0 where
  arrive leave second shut : Event
  delays : ℤ → ℤ → Event
  binds : Listened → Event

-- Histories have the newest event first.
unfoldable pub server_of : ℤ → List Event → FakeServer
server_of start [] = new_fake_server start
server_of start (arrive ∷ es) = (handle_begin (server_of start es)).1
server_of start (leave ∷ es) = handle_end (server_of start es)
server_of start (second ∷ es) = reset_tick (server_of start es)
server_of start (shut ∷ es) = close (server_of start es)
server_of start (delays min max ∷ es) = set_delay min max (server_of start es)
server_of start (binds l ∷ es) = (bind l (server_of start es)).1

-- The requests that arrived.
abbrev pub arrivals : List Event → ℕ
arrivals [] = 0
arrivals (arrive ∷ es) = suc (arrivals es)
arrivals (_ ∷ es) = arrivals es

-- The requests inside the handler.
abbrev pub inside : List Event → ℕ
inside [] = 0
inside (arrive ∷ es) = suc (inside es)
inside (leave ∷ es) = inside es - 1
inside (_ ∷ es) = inside es

-- Only a request that is inside leaves.
abbrev pub IsHistory : List Event → Type 0
IsHistory [] = Unit
IsHistory (leave ∷ es) = (0 < inside es) × IsHistory es
IsHistory (_ ∷ es) = IsHistory es

-- The most requests that were ever inside at once.
abbrev pub peak : List Event → ℕ
peak [] = 0
peak (e ∷ es) = max (inside (e ∷ es)) (peak es)

-- The arrivals since the last tick, and the most arrivals between two ticks.
abbrev pub fresh : List Event → ℕ
fresh [] = 0
fresh (arrive ∷ es) = suc (fresh es)
fresh (second ∷ es) = 0
fresh (_ ∷ es) = fresh es

abbrev pub busiest : List Event → ℕ
busiest [] = 0
busiest (second ∷ es) = max (fresh es) (busiest es)
busiest (_ ∷ es) = busiest es

pub record Agrees (f : FakeServer) (es : List Event) : Type 0 where
  pub current : f.current_connections ≡ pos (inside es)
  pub most : f.max_simultaneous ≡ pos (peak es)
  pub rate : f.requests_per_second ≡ pos (fresh es)
  pub best_rate : f.max_requests_per_second ≡ pos (busiest es)
  pub total : f.total_requests ≡ pos (arrivals es)

inside-le-peak : (es : List Event) → inside es ≤ peak es
inside-le-peak [] = omega arith
inside-le-peak (e ∷ es) = omega arith

-- Whatever requests arrive and leave, and whenever ticks, new delays, a bind or `Close` come
-- between them, the server's counters are the requests inside, their peak, those of the current
-- second, the most in a second that a tick has closed, and all that ever arrived. In particular no
-- request that leaves takes the count of connections below zero.
pub server_of-Agrees : (start : ℤ) (es : List Event) → IsHistory es → Agrees (server_of start es) es
unfolding server_of new_fake_server handle_begin handle_end reset_tick close set_delay bind ◌+ℤ◌
    ◌-ℤ◌
server_of-Agrees start [] h = record {
  current = refl;
  most = refl;
  rate = refl;
  best_rate = refl;
  total = refl;
}
server_of-Agrees start (arrive ∷ es) h =
    ground (arith, server_of-Agrees start es h, inside-le-peak es)
server_of-Agrees start (leave ∷ es) h =
    ground (arith, server_of-Agrees start es h.1, inside-le-peak es)
server_of-Agrees start (second ∷ es) h =
    ground (arith, server_of-Agrees start es h, inside-le-peak es)
server_of-Agrees start (shut ∷ es) h =
    ground (arith, server_of-Agrees start es h, inside-le-peak es)
server_of-Agrees start (delays min max' ∷ es) h =
    ground (arith, server_of-Agrees start es h, inside-le-peak es)
server_of-Agrees start (binds (listening l) ∷ es) h =
    ground (arith, server_of-Agrees start es h, inside-le-peak es)
server_of-Agrees start (binds (rejecting x) ∷ es) h =
    ground (arith, server_of-Agrees start es h, inside-le-peak es)
