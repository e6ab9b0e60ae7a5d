-- ===== src/Manager/Shutdown.antt =====
-- `Remove` and `StopAll`.
use Prim.Native.String.{String}
use text.Mathlib.TextEquality.{eq_iff}
use circuit_breaker.Base.{
  ℕ, ◌≡◌, ◌≢◌, refl, none, some, List, arith, Option-cases, inl, inr, sym, ap, get_elem?,
}
use mathlib.Core.List.{Permᴰ}
use circuit_breaker.Dict.{lookup, delete, lookup-delete}
use circuit_breaker.Circuit.{Circuit, stop}
use circuit_breaker.Manager.{Manager, get_circuit_breaker, remove, stop_object, stop_each, stop_all}
use circuit_breaker.Manager.Registry.{IsRegistry}
use circuit_breaker.Manager.Stopping.{
  IsStopped, stop-IsStopped, stop_frame, IsStoppedAt, stop_object_self, stop_object_ne,
  stop_each_stops, stop_each-AllStopped, stop_each_noop, stop_each_any_order,
}

-- `StopAll` keeps every name and its object's place, and leaves every registered object stopped: it has
-- no stop channel, or its stop channel is closed and its refill goroutine has ended. Done twice it is
-- done once. In whatever order it visits the entries of the map, it leaves the same objects.
pub stop_all_lem :
    (m : Manager)
    → ((name : String) → get_circuit_breaker name (stop_all m) ≡ get_circuit_breaker name m)
      × ((name : String) (h : ℕ)
          → get_circuit_breaker name m ≡ some h
          → IsStoppedAt h (stop_all m).objects)
      × (stop_all (stop_all m) ≡ stop_all m)
      × ((visited : List (String × ℕ))
          → Permᴰ m.cb visited
          → stop_each visited m.objects ≡ (stop_all m).objects)
unfolding stop_all get_circuit_breaker
stop_all_lem m = (
  λ name. refl,
  λ name h e. stop_each_stops m.cb m.objects name h e,
  ap (λ os. record m { objects = os })
      (stop_each_noop m.cb (stop_each m.cb m.objects) (stop_each-AllStopped m.cb m.objects)),
  λ visited p. sym (stop_each_any_order p m.objects),
)

removed_none : (name : String) (m : Manager) → lookup name m.cb ≡ none → remove name m ≡ m
unfolding remove
removed_none name m e = rw (e, remove) refl

removed_some :
    (name : String) (m : Manager) (h : ℕ)
    → lookup name m.cb ≡ some h
    → remove name m
      ≡ record { cb = delete name m.cb; cfg = delete name m.cfg; objects = stop_object h m.objects }
unfolding remove
removed_some name m h e = rw (e, remove) refl

-- On a manager whose two maps have the same names, each once: `Remove` of a registered name takes the
-- name out and stops its object, whose stop channel, if it has one, is then closed and whose refill
-- goroutine has ended, and which keeps all else; the other names keep their objects, and no other
-- object changes. Of an unknown name it changes nothing.
pub remove_lem :
    (name : String) (m : Manager)
    → IsRegistry m
    → (get_circuit_breaker name (remove name m) ≡ none)
      × ((j : String) → name ≢ j → get_circuit_breaker j (remove name m) ≡ get_circuit_breaker j m)
      × ((h : ℕ) (c : Circuit)
          → get_circuit_breaker name m ≡ some h
          → get_elem? m.objects h ≡ some c
          → (c' : Circuit) × (get_elem? (remove name m).objects h ≡ some c')
            × IsStopped c'
            × (c' ≡ record c { token_stop = c'.token_stop; refilling = c'.refilling })
            × ((i : ℕ) → h ≢ i → get_elem? (remove name m).objects i ≡ get_elem? m.objects i))
      × (get_circuit_breaker name m ≡ none → remove name m ≡ m)
unfolding get_circuit_breaker
remove_lem name m r = elim (Option-cases (lookup name m.cb)) [
  | inl e ↦ rw (removed_none name m e) (e, λ j ne. refl, λ h c q q'. absurd (cc), λ q. refl)
  | inr (handle, e) ↦ rw (removed_some name m handle e) (
    ground (arith, lookup-delete name name m.cb r.cb_distinct, eq_iff name name),
    λ j ne. ground (arith, lookup-delete name j m.cb r.cb_distinct, eq_iff name j),
    λ h c q q'.
        let same : handle ≡ h = ground arith in
        rw same (
          stop c,
          stop_object_self h m.objects c q',
          stop-IsStopped c,
          stop_frame c,
          λ i ne. stop_object_ne h i m.objects ne,
        ),
    λ q. absurd (cc),
  )
]
