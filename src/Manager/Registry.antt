-- ===== src/Manager/Registry.antt =====
-- One object per name: what the registry's operations keep and return.
use Prim.Native.String.{String}
use circuit_breaker.Base.{
  ℕ, ◌<◌, ◌≡◌, ◌≢◌, refl, none, some, List, [], ◌∷◌, length, arith, Option-cases, inl, inr,
  length-append, ◌∙◌, length-set, get_elem?,
}
use circuit_breaker.Float.{Float}
use circuit_breaker.Dict.{
  lookup, delete, AreDistinct, lookup-insert, insert-AreDistinct, delete-AreDistinct, lookup-delete,
}
use circuit_breaker.Circuit.{Circuit, stop}
use circuit_breaker.Manager.{
  Manager, BreakerConfig, new_manager, register, make, get_or_create, get_or_create_strict, remove,
  stop_object, stop_each, stop_all,
}

-- Both maps have the same keys, once each, and every handle names an object.
pub record IsRegistry (m : Manager) : Type 0 where
  pub cb_distinct : AreDistinct m.cb
  pub cfg_distinct : AreDistinct m.cfg
  pub configured : (name : String) → lookup name m.cb ≢ none → lookup name m.cfg ≢ none
  pub registered : (name : String) → lookup name m.cfg ≢ none → lookup name m.cb ≢ none
  pub allocated :
      (name : String) (handle : ℕ) → lookup name m.cb ≡ some handle → handle < length m.objects

pub register-IsRegistry :
    (name : String) (c : Circuit) (config : BreakerConfig) (m : Manager)
    → IsRegistry m
    → IsRegistry (register name c config m).1
unfolding register
register-IsRegistry name c config m r = record {
  cb_distinct = insert-AreDistinct name (length m.objects) m.cb r.cb_distinct;
  cfg_distinct = insert-AreDistinct name config m.cfg r.cfg_distinct;
  configured = λ j h. ground (
    arith,
    lookup-insert name j (length m.objects) m.cb,
    lookup-insert name j config m.cfg,
    r.configured j,
  );
  registered = λ j h. ground (
    arith,
    lookup-insert name j (length m.objects) m.cb,
    lookup-insert name j config m.cfg,
    r.registered j,
  );
  allocated = λ j handle e. ground (
    arith,
    lookup-insert name j (length m.objects) m.cb,
    length-append m.objects (c ∷ []),
    r.allocated j handle,
  );
}

length-stop_object :
    (handle : ℕ) (objects : List Circuit) → length (stop_object handle objects) ≡ length objects
unfolding stop_object
length-stop_object handle objects = elim (Option-cases (get_elem? objects handle)) [
  | inl e ↦ rw (e, stop_object) refl
  | inr (c, e) ↦ rw (e, stop_object) (length-set objects handle (stop c))
]

length-stop_each :
    (cbs : List (String × ℕ)) (objects : List Circuit)
    → length (stop_each cbs objects) ≡ length objects
unfolding stop_each
length-stop_each [] objects = refl
length-stop_each ((name, handle) ∷ cbs) objects =
    length-stop_each cbs (stop_object handle objects) ∙ length-stop_object handle objects

deleted-IsRegistry :
    (name : String) (m : Manager) (objects : List Circuit)
    → IsRegistry m
    → length objects ≡ length m.objects
    → IsRegistry (record { cb = delete name m.cb; cfg = delete name m.cfg; objects = objects })
deleted-IsRegistry name m objects r e = record {
  cb_distinct = delete-AreDistinct name m.cb r.cb_distinct;
  cfg_distinct = delete-AreDistinct name m.cfg r.cfg_distinct;
  configured = λ j h. ground (
    arith,
    lookup-delete name j m.cb r.cb_distinct,
    lookup-delete name j m.cfg r.cfg_distinct,
    r.configured j,
  );
  registered = λ j h. ground (
    arith,
    lookup-delete name j m.cb r.cb_distinct,
    lookup-delete name j m.cfg r.cfg_distinct,
    r.registered j,
  );
  allocated =
      λ j handle q. ground (arith, lookup-delete name j m.cb r.cb_distinct, r.allocated j handle);
}

-- The calls of a client.
pub data Op : Type 0 where
  create create_strict : String → BreakerConfig → Op
  discard : String → Op
  halt : Op

module _ {F : Type 0} (fl : Float F) (zero_config : BreakerConfig) where
  unfoldable pub perform : Op → Manager → Manager
  perform (create name config) m = (get_or_create fl name config m).1
  perform (create_strict name config) m = (get_or_create_strict fl zero_config name config m).1
  perform (discard name) m = remove name m
  perform halt m = stop_all m

  unfoldable pub perform_all : List Op → Manager → Manager
  perform_all [] m = m
  perform_all (o ∷ os) m = perform_all os (perform o m)

  pub perform-IsRegistry : (o : Op) (m : Manager) → IsRegistry m → IsRegistry (perform o m)
  unfolding perform get_or_create get_or_create_strict remove stop_all
  perform-IsRegistry (create name config) m r = elim (Option-cases (lookup name m.cb)) [
    | inl e ↦
        rw (e, perform, get_or_create) (register-IsRegistry name (make fl name config) config m r)
    | inr (h, e) ↦ rw (e, perform, get_or_create) r
  ]
  perform-IsRegistry (create_strict name config) m r = elim (Option-cases (lookup name m.cb)) [
    | inl e ↦
        rw (e, perform, get_or_create_strict)
          (register-IsRegistry name (make fl name config) config m r)
    | inr (h, e) ↦ ground (arith, e, r)
  ]
  perform-IsRegistry (discard name) m r = elim (Option-cases (lookup name m.cb)) [
    | inl e ↦ rw (e, perform, remove) r
    | inr (h, e) ↦
        rw (e, perform, remove)
          (deleted-IsRegistry name m (stop_object h m.objects) r (length-stop_object h m.objects))
  ]
  perform-IsRegistry halt m r = record {
    cb_distinct = r.cb_distinct;
    cfg_distinct = r.cfg_distinct;
    configured = r.configured;
    registered = r.registered;
    allocated =
        λ j handle q. omega (arith, length-stop_each m.cb m.objects, r.allocated j handle q);
  }

  pub new_manager-IsRegistry : (objects : List Circuit) → IsRegistry (new_manager objects)
  unfolding new_manager lookup
  new_manager-IsRegistry objects = record {
    cb_distinct = tt;
    cfg_distinct = tt;
    configured = λ name h. absurd (h refl);
    registered = λ name h. absurd (h refl);
    allocated = λ name handle e. cc;
  }

  pub perform_all-IsRegistry :
      (os : List Op) (objects : List Circuit) → IsRegistry (perform_all os (new_manager objects))
  unfolding perform_all
  perform_all-IsRegistry os objects = go os (new_manager objects) (new_manager-IsRegistry objects)
    where
      go : (os : List Op) (m : Manager) → IsRegistry m → IsRegistry (perform_all os m)
      go [] m r = r
      go (o ∷ os) m r = go os (perform o m) (perform-IsRegistry o m r)
