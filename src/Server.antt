-- ===== src/Server.antt =====
-- internal/fakeserver.go: the HTTP server that the demo and the tests send to. Every critical
-- section of its mutex is one function; counters are integers that stay far below 2 ^ 63.
pub mod History
pub mod Delay
use Prim.Native.String.{String}
use circuit_breaker.Base.{ℕ, Bool, true, false, Option, none, some, if◌then◌else◌}
use circuit_breaker.Base.Int.{ℤ, pos, negsuc, ◌+ℤ◌, ◌-ℤ◌, ltb_ℤ, leb_ℤ}
use circuit_breaker.Base.Words.{int64, sub_time}
use circuit_breaker.Float.{Float}

-- The errors of `net.Listen`.
pub data ListenError : Type 0 where
  listen_error : ℕ → ListenError

-- `listener` is the address of the listener, if there is one, and `is_done` says that `done` is closed.
pub record FakeServer : Type 0 where
  pub current_connections : ℤ
  pub max_simultaneous : ℤ
  pub requests_per_second : ℤ
  pub max_requests_per_second : ℤ
  pub total_requests : ℤ
  pub start_time : ℤ
  pub listener : Option String
  pub min_delay : ℤ
  pub max_delay : ℤ
  pub is_done : Bool

unfoldable pub new_fake_server : ℤ → FakeServer
new_fake_server now = record {
  current_connections = pos 0;
  max_simultaneous = pos 0;
  requests_per_second = pos 0;
  max_requests_per_second = pos 0;
  total_requests = pos 0;
  start_time = now;
  listener = none;
  min_delay = pos 1_000_000_000;
  max_delay = pos 5_000_000_000;
  is_done = false;
}

unfoldable pub set_delay : ℤ → ℤ → FakeServer → FakeServer
set_delay min max f = record f { min_delay = min; max_delay = if ltb_ℤ max min then min else max }

-- `handle` up to its first unlock: the bounds of the delay that it read, and the new state.
unfoldable pub handle_begin : FakeServer → (ℤ × ℤ) × FakeServer
handle_begin f =
    let current = f.current_connections +ℤ pos 1 in
    (
      (f.min_delay, f.max_delay),
      record f {
        current_connections = current;
        requests_per_second = f.requests_per_second +ℤ pos 1;
        total_requests = f.total_requests +ℤ pos 1;
        max_simultaneous = if ltb_ℤ f.max_simultaneous current then current else f.max_simultaneous;
      },
    )

-- The deferred decrement.
unfoldable pub handle_end : FakeServer → FakeServer
handle_end f = record f { current_connections = f.current_connections -ℤ pos 1 }

-- The simulated delay: `draw n` stands for `rand.Int63n(n)`, which panics (`none`) unless `n > 0`; the
-- argument is computed in int64 arithmetic, and so is the sum.
unfoldable pub delay_of : (ℕ → ℕ) → ℤ × ℤ → Option ℤ
delay_of draw (min, max) =
    if ltb_ℤ min max
    then elim (int64 (max -ℤ min +ℤ pos 1)) [
      | negsuc n ↦ none
      | pos n ↦ if ltb_ℤ (pos 0) (pos n) then some (int64 (min +ℤ pos (draw n))) else none
    ]
    else some min

-- One tick of `reset`.
unfoldable pub reset_tick : FakeServer → FakeServer
reset_tick f = record f {
  max_requests_per_second =
      if ltb_ℤ f.max_requests_per_second f.requests_per_second
      then f.requests_per_second
      else f.max_requests_per_second;
  requests_per_second = pos 0;
}

-- What one tick of `stats` prints. `is_positive` is `elapsed > 0` on float64.
unfoldable pub stats_tick : {F : Type 0} → Float F → (F → Bool) → ℤ → FakeServer → ℤ × (ℤ × F)
stats_tick fl is_positive now f =
    let elapsed = fl.seconds (sub_time now f.start_time) in
    let avg =
      if is_positive elapsed then fl.div (fl.of_int f.total_requests) elapsed else fl.zero in
    (f.max_simultaneous, (f.max_requests_per_second, avg))

pub data Listened : Type 0 where
  listening : String → Listened
  rejecting : ListenError → Listened

-- `bind` and `Start`, on what `net.Listen` gives.
unfoldable pub bind : Listened → FakeServer → Option ListenError × FakeServer
bind (listening address) f = (none, record f { listener = some address })
bind (rejecting e) f = (some e, f)

-- `Listen`: it prints the error of `bind`, or serves on its listener until the server is closed.
pub data Listening : Type 0 where
  printed : ListenError → Listening
  serving : String → Listening

unfoldable pub listen : Listened → FakeServer → Listening × FakeServer
listen (listening address) f = (serving address, (bind (listening address) f).1)
listen (rejecting e) f = (printed e, (bind (rejecting e) f).1)

unfoldable pub addr : FakeServer → String
addr f = elim f.listener [ none ↦ "" | some address ↦ address ]

-- `Close`, which runs once.
unfoldable pub close : FakeServer → FakeServer
close f = record f { is_done = true }
