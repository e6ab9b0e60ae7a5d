-- ===== src/Metrics/Totals.antt =====
-- "::root" of a host is the sum of its other entries, and no host grows without bound.
use Prim.Native.String.{String}
use text.Mathlib.Text.{◌==◌}
use text.Mathlib.TextEquality.{eq_iff}
use circuit_breaker.Base.{ℕ, ◌+◌, ◌%◌, ◌^◌, ◌≡◌, ◌≢◌, [], ◌∷◌, some, if◌then◌else◌, arith, sym}
use mathlib.Core.Path.{subst}
use circuit_breaker.Dict.{
  lookup, insert, lookup-insert_self, lookup-insert_ne, sum_of, weight, sum_of-insert,
}
use circuit_breaker.Metrics.{root, Host, state_or_new}
use circuit_breaker.Metrics.Hosts.{Updated}

module _ {S : Type 0} (w : S → ℕ) where
  -- What an entry adds to the sum: "::root" nothing.
  abbrev pub share : String → S → ℕ
  share k s = if k == root then 0 else w s

  abbrev pub IsBalanced : Host S → Type 0
  IsBalanced hm = (r : S) → lookup root hm ≡ some r → w r % 2 ^ 64 ≡ sum_of share hm % 2 ^ 64

module _ {S : Type 0} (new : S) (w : S → ℕ) (zero_new : w new ≡ 0) where
  share_of_found :
      (k : String) (hm : Host S)
      → k ≢ root
      → weight (share w) k (lookup k hm) ≡ w (state_or_new new (lookup k hm))
  unfolding weight state_or_new
  share_of_found k hm ne = ground (arith, eq_iff k root, zero_new)

  pub fresh_host-IsBalanced : IsBalanced w ((root, new) ∷ [])
  unfolding lookup sum_of
  fresh_host-IsBalanced r e = ground (arith, zero_new)

  module _ (d : ℕ) (f g : S → S) (adds_f : (s : S) → w (f s) % 2 ^ 64 ≡ (w s + d) % 2 ^ 64)
      (adds_g : (s : S) → w (g s) % 2 ^ 64 ≡ (w s + d) % 2 ^ 64) where
    updates-IsBalanced :
        (hm : Host S) (key : String) (r : S)
        → key ≢ root
        → lookup root hm ≡ some r
        → IsBalanced w hm
        → IsBalanced w (insert root (g r) (insert key (f (state_or_new new (lookup key hm))) hm))
    unfolding weight
    updates-IsBalanced hm key r ne at b r' e =
        let s = state_or_new new (lookup key hm) in
        let mid = insert key (f s) hm in
        ground (
          arith,
          lookup-insert_self root (g r) mid,
          lookup-insert_ne key root (f s) hm ne,
          sum_of-insert (share w) key (f s) hm,
          sum_of-insert (share w) root (g r) mid,
          share_of_found key hm ne,
          b r at,
          adds_f s,
          adds_g r,
          eq_iff key root,
        )

    pub Updated-IsBalanced :
        (endpoint : String) (hm hm' : Host S)
        → IsBalanced w hm
        → Updated new endpoint f g hm (some hm')
        → IsBalanced w hm'
    Updated-IsBalanced endpoint hm hm' b u =
        let e : hm' ≡ _ = cc (u.result) in
        subst (IsBalanced w) (sym e)
          (updates-IsBalanced hm u.key u.old_root u.key_not_root u.at_root b)
