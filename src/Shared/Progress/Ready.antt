-- ===== src/Shared/Progress/Ready.antt =====
-- Breakers whose calls can always come to their end.
use Prim.Native.String.{String}
use circuit_breaker.Base.{◌+◌, inl, All, ℕ, ◌*◌, ◌≤◌, ◌<◌, ◌≡◌, refl, ap, ◌∙◌, true, [], arith}
use circuit_breaker.Base.Int.{ℤ, pos}
use circuit_breaker.Circuit.{Circuit, new_circuit, size_of, stop}
use circuit_breaker.Circuit.Setup.{IsReady}
use circuit_breaker.Bucket.Rate.{refill-min}
use circuit_breaker.Request.{asked, reported}
use circuit_breaker.Shared.{
  System, Step, enter, begin, refused, act, tell, tick, halt, Reach, here, next,
}
use circuit_breaker.Shared.Slots.{in_use, room, Reach-Counted}
use circuit_breaker.Shared.Tokens.{tokens_held, tokens_room, is_limited, Moves, effect-Moves}
use circuit_breaker.Shared.Rate.{Reach-Budget}
use circuit_breaker.Shared.Progress.{work, IsSupplied, IsServed, IsReturning}
use circuit_breaker.Shared.Progress.Schedules.{acted, brought, Reach-work}
use circuit_breaker.Shared.Progress.End.{wind_up}

-- The sizes of the bucket and of a tick never change.
record Keeps (c c' : Circuit) : Type 0 where
  depth : tokens_room c' ≡ tokens_room c
  lot_size : size_of c'.tokens_per_tick ≡ size_of c.tokens_per_tick

moved-Keeps : (k : ℕ) (c c' : Circuit) → Moves k c c' → Keeps c c'
unfolding Moves
moved-Keeps k c c' m = record { depth = m.1; lot_size = ap size_of m.4 }

refilled-Keeps :
    {s t : System}
    → Step s t
    → tokens_held s.circuit ≤ tokens_room s.circuit
    → Keeps s.circuit t.circuit
unfolding stop
refilled-Keeps {s} (enter req env {b} {c} e a run q) h =
    moved-Keeps _ s.circuit c (effect-Moves (asked env.asked_at) s.circuit c q)
refilled-Keeps (begin req env e) h = record { depth = refl; lot_size = refl }
refilled-Keeps {s} (refused now {b} {c} e a q) h =
    moved-Keeps _ s.circuit c (effect-Moves (asked now) s.circuit c q)
refilled-Keeps {s} (act {c = c} {a = a} w e silent q) h =
    moved-Keeps _ s.circuit c (effect-Moves a s.circuit c q)
refilled-Keeps {s} (tell {c = c} probe gen now o w e q) h =
    moved-Keeps _ s.circuit c (effect-Moves (reported probe gen now o) s.circuit c q)
refilled-Keeps {s} (tick ch e on lot) h =
    let f = refill-min 1 ch (ground (arith, h)) in
    record { depth = ground (arith, f); lot_size = refl }
refilled-Keeps {s} halt h = record { depth = ground arith; lot_size = ground arith }

Reach-Keeps :
    {s0 : System} {n : ℕ} {s : System}
    → is_limited s0.circuit ≡ true
    → tokens_held s0.circuit ≤ tokens_room s0.circuit
    → Reach s0 n s
    → Keeps s0.circuit s.circuit
Reach-Keeps l h here = record { depth = refl; lot_size = refl }
Reach-Keeps l h (next r st) =
    let before = Reach-Keeps l h r in
    let now = refilled-Keeps st ((Reach-Budget l h r).full) in
    record { depth = now.depth ∙ before.depth; lot_size = now.lot_size ∙ before.lot_size }

-- What served its calls does so while the tokens come.
pub Reach-IsServed :
    {s0 : System} {n : ℕ} {s : System}
    → in_use s0.circuit ≡ 0
    → s0.calls ≡ []
    → IsServed s0
    → (r : Reach s0 n s) → IsSupplied s
    → IsServed s
Reach-IsServed free none_yet g r on =
    let b = Reach-Budget g.limited g.full r in
    let k = Reach-Keeps g.limited g.full r in
    record {
      seats = omega (arith, (Reach-Counted free none_yet r).limited, g.seats);
      limited = b.limited;
      depth = omega (arith, k.depth, g.depth);
      full = b.full;
      supply = on;
      lot_size = omega (arith, k.lot_size, g.lot_size);
    }

-- No deadlock. Take a free breaker with both limits, and any state that calls of `Do`, ticks and
-- `Stop` reach from it, in any order, as long as the refilling goroutine still runs there, or the
-- bucket holds the tokens that the calls in flight have left to take. If every call in flight gives
-- back the slot that it takes, then all these calls can come to their end: there is a run of at
-- most two steps for each action that they have left, after which none has one left and the
-- semaphore is free. And no schedule goes on for ever: in any run from that state, the calls make
-- at most as many actions as those in flight have left and those that come in bring with them.
pub calls_wind_up :
    {s0 : System} {n : ℕ} {s : System}
    → in_use s0.circuit ≡ 0
    → s0.calls ≡ []
    → IsServed s0
    → Reach s0 n s
    → IsSupplied s
    → All IsReturning s.calls
    → ((m : ℕ) × (t : System) × Reach s m t
        × (m ≤ 2 * work s.calls)
        × (work t.calls ≡ 0)
        × (in_use t.circuit ≡ 0))
      × ((m : ℕ) (t : System) (r : Reach s m t) → acted r + work t.calls ≤ work s.calls + brought r)
calls_wind_up free none_yet g r on h =
    let w = wind_up free none_yet r (Reach-IsServed free none_yet g r on) h in
    ((w.steps, w.end, w.run, w.few, w.over, w.free), λ m t r'. Reach-work r')

-- A new breaker, before its first call.
abbrev pub idle_system : Circuit → System
idle_system c = record { circuit = c; calls = [] }

-- One that was set up with both limits serves its calls.
pub ready-IsServed :
    (m s : ℕ) (c ready : Circuit)
    → IsReady m s c ready
    → 1 ≤ room c
    → IsServed (idle_system ready) × (in_use ready ≡ in_use c) × (room ready ≡ room c)
ready-IsServed m s c ready v h =
    let same_room : room ready ≡ room c = ap room v.kept in
    let held : tokens_held ready ≡ v.capacity = ground (arith, v.full) in
    let deep : tokens_room ready ≡ v.capacity = ground (arith, v.full) in
    (
      record {
        seats = omega (arith, same_room, h);
        limited = ground (arith, v.full);
        depth = omega (arith, deep, v.some_room);
        full = omega (arith, held, deep);
        supply = inl v.refilled.0;
        lot_size = ground (arith, v.batch.0);
      },
      ap in_use v.kept,
      same_room,
    )

pub new_room :
    (name : String) (mc : ℕ) (m s retries : ℤ)
    → 0 < mc
    → (room (new_circuit name (pos mc) m s retries) ≡ mc)
      × (in_use (new_circuit name (pos mc) m s retries) ≡ 0)
unfolding new_circuit
new_room name mc m s retries p = (ground arith, ground arith)

pub requested :
    (name : String) (mc m s : ℕ) (retries : ℤ)
    → ((new_circuit name (pos mc) (pos m) (pos s) retries).max_requests ≡ pos m)
      × ((new_circuit name (pos mc) (pos m) (pos s) retries).window_seconds ≡ pos s)
unfolding new_circuit
requested name mc m s retries = (refl, refl)
