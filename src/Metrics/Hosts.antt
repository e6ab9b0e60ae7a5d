-- ===== src/Metrics/Hosts.antt =====
-- What one update does to a host's entries.
use Prim.Native.String.{String, ◌++◌}
use text.Mathlib.Text.{◌==◌}
use text.Mathlib.TextEquality.{eq_iff}
use circuit_breaker.Base.{
  ◌+◌, ◌≤◌, ◌<◌, ◌≡◌, ◌≢◌, refl, ap, [], ◌∷◌, Option, none, some, length, arith, ◌⊎◌, inl, inr,
  Bool-cases, Option-cases, ◌∙◌,
}
use circuit_breaker.Dict.{
  lookup, insert, AreDistinct, lookup-insert, lookup-insert_ne, insert-AreDistinct, length-insert,
}
use circuit_breaker.Metrics.{
  root, other, max_endpoints_per_host, Host, unalias, entry_for, update_host, state_or_new,
}

slash_root : ("/" ++ root) ≢ root
slash_root e = cc (ap (λ s. s == root) e)

slash_other : ("/" ++ other) ≢ root
slash_other e = cc (ap (λ s. s == root) e)

pub unalias-ne-root : (endpoint : String) → unalias endpoint ≢ root
unfolding unalias
unalias-ne-root endpoint = elim (Bool-cases (endpoint == root)) [
  | inl r ↦ let e : endpoint ≡ root = (eq_iff endpoint root).0 r in rw e slash_root
  | inr nr ↦ elim (Bool-cases (endpoint == other)) [
    | inl o ↦ let e : endpoint ≡ other = (eq_iff endpoint other).0 o in rw e slash_other
    | inr no' ↦ ground (arith, eq_iff endpoint root)
  ]
]

-- The entries of a host: distinct keys, "::root" among them, within the limit. The limit leaves room
-- for one entry above `max_endpoints_per_host`, since "::other" is created when it is reached.
pub record IsHost {S : Type 0} (hm : Host S) : Type 0 where
  pub distinct : AreDistinct hm
  pub rooted : lookup root hm ≢ none
  pub limited :
      (length hm ≤ max_endpoints_per_host)
      ⊎ ((length hm ≤ max_endpoints_per_host + 1) × (lookup other hm ≢ none))

module _ {S : Type 0} (new : S) where
  pub fresh-IsHost : IsHost ((root, new) ∷ [])
  unfolding lookup
  fresh-IsHost = record { distinct = (refl, tt); rooted = λ e. cc; limited = inl (omega arith) }

  insert-IsHost :
      (hm : Host S) (k : String) (v : S)
      → IsHost hm
      → (lookup k hm ≢ none) ⊎ ((length hm < max_endpoints_per_host) ⊎ (k ≡ other))
      → IsHost (insert k v hm)
  insert-IsHost hm k v h room = record {
    distinct = insert-AreDistinct k v hm h.distinct;
    rooted = ground (arith, lookup-insert k root v hm, h.rooted);
    limited =
        ground (arith, lookup-insert k other v hm, length-insert k v hm, h.limited, eq_iff k other);
  }

  -- The three ways of finding an entry: it exists, it is created, or "::other" stands in for it.
  record Entry (endpoint : String) (hm : Host S) (key : String) (s : S) : Type 0 where
    not_root : key ≢ root
    found : s ≡ state_or_new new (lookup key hm)
    room : (lookup key hm ≢ none) ⊎ ((length hm < max_endpoints_per_host) ⊎ (key ≡ other))

  entry_for-Entry :
      (endpoint : String) (hm : Host S)
      → endpoint ≢ root
      → Entry endpoint hm (entry_for new endpoint hm).0 (entry_for new endpoint hm).1
  unfolding entry_for
  entry_for-Entry endpoint hm ne = ground (arith, slash_other, eq_iff other root)

  -- An update of a well-formed host does not panic. It changes two entries: the one under the key
  -- that was found, from its old state or from a new one, and "::root".
  pub record Updated (endpoint : String) (f g : S → S) (hm : Host S) (out : Option (Host S))
      : Type 0 where
    pub key : String
    pub old_root : S
    pub at_root : lookup root hm ≡ some old_root
    pub key_not_root : key ≢ root
    pub room : (lookup key hm ≢ none) ⊎ ((length hm < max_endpoints_per_host) ⊎ (key ≡ other))
    pub chosen : key ≡ (entry_for new (unalias endpoint) hm).0
    pub result :
        out ≡ some (insert root (g old_root) (insert key (f (state_or_new new (lookup key hm))) hm))

  pub update_host-Updated :
      (endpoint : String) (f g : S → S) (hm : Host S)
      → IsHost hm
      → Updated endpoint f g hm (update_host new endpoint f g hm)
  unfolding update_host
  update_host-Updated endpoint f g hm h = elim (Option-cases (lookup root hm)) [
    | inl e ↦ absurd (h.rooted e)
    | inr (r, e) ↦
        let key = (entry_for new (unalias endpoint) hm).0 in
        let s = (entry_for new (unalias endpoint) hm).1 in
        let en = entry_for-Entry (unalias endpoint) hm (unalias-ne-root endpoint) in
        let at : lookup root (insert key (f s) hm) ≡ some r =
          lookup-insert_ne key root (f s) hm en.not_root ∙ e in
        record {
          key = key;
          old_root = r;
          at_root = e;
          key_not_root = en.not_root;
          room = en.room;
          chosen = refl;
          result = rw (at, update_host, en.found) refl;
        }
  ]

  pub Updated-IsHost :
      (endpoint : String) (f g : S → S) (hm : Host S) (out : Option (Host S))
      → IsHost hm
      → Updated endpoint f g hm out
      → (hm' : Host S) × (out ≡ some hm') × IsHost hm'
  Updated-IsHost endpoint f g hm out h u =
      let mid = insert u.key (f (state_or_new new (lookup u.key hm))) hm in
      let h' = insert-IsHost hm u.key (f (state_or_new new (lookup u.key hm))) h u.room in
      (
        insert root (g u.old_root) mid,
        u.result,
        insert-IsHost mid root (g u.old_root) h' (inl h'.rooted),
      )
