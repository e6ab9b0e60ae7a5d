-- ===== src/Request/Spacing.antt =====
-- The sleeps of `Do` between its sends, round by round.
pub mod Rounds
pub mod Calls
use circuit_breaker.Base.{
  ℕ, zero, suc, ◌+◌, ◌-◌, ◌*◌, ◌≤◌, ◌≡◌, refl, ap, sym, ◌∙◌, Bool, true, false, not, ◌&&◌, List, [],
  ◌∷◌, ◌++◌, arith, Option, none, some, Option-cases, Bool-cases, inl, inr, if◌then◌else◌, ltb,
}
use mathlib.Core.Path.{subst}
use mathlib.Core.List.{append_assoc}
use circuit_breaker.Base.Int.{ℤ, pos, negsuc, ltb_ℤ, ◌≤ℤ◌, ◌+ℤ◌}
use circuit_breaker.Base.Words.{int64, sub_time}
use circuit_breaker.Endpoint.{again, fail, succeed, attempt}
use circuit_breaker.Errors.{Err}
use circuit_breaker.Circuit.{Circuit, Channel, size_of}
use circuit_breaker.Options.{backoff_for}
use circuit_breaker.Bucket.{wait_for_token}
use circuit_breaker.RetryAfter.{parse_retry_after, wait_retry_after_gate, retry_after_status}
use circuit_breaker.Breaker.{status_fails}
use circuit_breaker.Request.{
  Action, sent, slept, gate_extended, recorded, rewound, returned, panicked, waiting, drained, when,
  Request, Response, Env, Attempt, Round, Transport, panics, responds, fails, leaves, goes_on,
  Ending, first, refuse, pause, rewindable, retryable, retry_after, on_response, on_failure, send,
  rewind_and_send, with_token, attempt_once, attempts_from, is_more,
}
use circuit_breaker.Request.Paced.{permitted, permitted_unsent}
use circuit_breaker.Request.Tally.{tally, one_sent}

-- How long an action sleeps.
abbrev pub nap : Action → ℕ
nap (slept d) = size_of d
nap _ = 0

-- The sleep that is due before the next send: all of `l` after a send, and less after a sleep.
abbrev due_after : ℕ → ℕ → Action → ℕ
due_after l due sent = l
due_after l due (slept d) = due - size_of d
due_after l due _ = due

abbrev IsDue : ℕ → Action → Type 0
IsDue due sent = due ≡ 0
IsDue due _ = Unit

-- Between any two sends in the list the sleeps add up to `l` or more; before the first, to `due`.
abbrev pub IsSpaced : ℕ → ℕ → List Action → Type 0
IsSpaced l due [] = Unit
IsSpaced l due (a ∷ acts) = IsDue due a × IsSpaced l (due_after l due a) acts

module _ (l : ℕ) where
  due_after_mono : (a : Action) (m n : ℕ) → m ≤ n → due_after l m a ≤ due_after l n a
  due_after_mono a m n h = ground arith

  IsDue-mono : (a : Action) (m n : ℕ) → m ≤ n → IsDue n a → IsDue m a
  IsDue-mono a m n h d = ground arith

  unsent-IsDue : (a : Action) (due : ℕ) → one_sent a ≡ 0 → IsDue due a
  unsent-IsDue a due z = ground arith

  unsent_due : (a : Action) (due : ℕ) → one_sent a ≡ 0 → due_after l due a ≤ due
  unsent_due a due z = ground arith

  pub IsSpaced-mono : (acts : List Action) (m n : ℕ) → m ≤ n → IsSpaced l n acts → IsSpaced l m acts
  IsSpaced-mono [] m n h s = tt
  IsSpaced-mono (a ∷ acts) m n h s = (
    IsDue-mono a m n h s.0,
    IsSpaced-mono acts (due_after l m a) (due_after l n a) (due_after_mono a m n h) s.1,
  )

  -- Actions without a send put off nothing.
  pub unsent-IsSpaced :
      (acts rest : List Action) (due : ℕ)
      → tally one_sent acts ≡ 0
      → IsSpaced l due rest
      → IsSpaced l due (acts ++ rest)
  unsent-IsSpaced [] rest due z h = h
  unsent-IsSpaced (a ∷ acts) rest due z h =
      let quiet : one_sent a ≡ 0 = omega (arith, z) in
      (
        unsent-IsDue a due quiet,
        unsent-IsSpaced acts rest (due_after l due a) (omega (arith, z))
            (IsSpaced-mono rest (due_after l due a) due (unsent_due a due quiet) h),
      )

  pub append-IsSpaced :
      (acts rest : List Action) (due : ℕ)
      → IsSpaced l due acts
      → tally one_sent rest ≡ 0
      → IsSpaced l due (acts ++ rest)
  append-IsSpaced [] [] due h z = tt
  append-IsSpaced [] (a ∷ rest) due h z =
      let quiet : one_sent a ≡ 0 = omega (arith, z) in
      (unsent-IsDue a due quiet, append-IsSpaced [] rest (due_after l due a) tt (omega (arith, z)))
  append-IsSpaced (a ∷ acts) rest due h z =
      (h.0, append-IsSpaced acts rest (due_after l due a) h.1 z)

  -- A round, before rounds that are spaced themselves; after the last round there are none.
  unfoldable pub IsSpacedRound : ℕ → Bool → Round → Type 0
  IsSpacedRound due more (leaves acts ending last) = IsSpaced l due acts
  IsSpacedRound due more (goes_on acts last) =
      (rest : List Action)
      → IsSpaced l 0 rest
      → (more ≡ false → rest ≡ [])
      → IsSpaced l due (acts ++ rest)

  pub leaves-IsSpacedRound :
      (acts : List Action) (due : ℕ) (more : Bool) (ending : Ending) (last : Option Err)
      → IsSpaced l due acts
      → IsSpacedRound due more (leaves acts ending last)
  unfolding IsSpacedRound
  leaves-IsSpacedRound acts due more ending last h = h

  -- After the last round nothing is sent.
  pub ends-IsSpacedRound :
      (due : ℕ) (more : Bool) (last : Option Err)
      → more ≡ false
      → IsSpacedRound due more (goes_on [] last)
  unfolding IsSpacedRound
  ends-IsSpacedRound due more last m = λ rest s z. rw (z m) tt

  pub first-IsSpacedRound :
      (acts : List Action) (due : ℕ) (more : Bool) (r : Round)
      → tally one_sent acts ≡ 0
      → IsSpacedRound due more r
      → IsSpacedRound due more (first acts r)
  unfolding IsSpacedRound
  first-IsSpacedRound acts due more (leaves xs ending last) z h = unsent-IsSpaced acts xs due z h
  first-IsSpacedRound acts due more (goes_on xs last) z h = λ rest s e.
      rw (append_assoc acts xs rest) (unsent-IsSpaced acts (xs ++ rest) due z (h rest s e))

  pub sent-IsSpacedRound :
      (more : Bool) (r : Round)
      → IsSpacedRound l more r
      → IsSpacedRound 0 more (first (sent ∷ []) r)
  unfolding IsSpacedRound
  sent-IsSpacedRound more (leaves xs ending last) h = (refl, h)
  sent-IsSpacedRound more (goes_on xs last) h = λ rest s e. (refl, h rest s e)

  pub branch-IsSpacedRound :
      (r r' : Round) (due : ℕ) (more b : Bool)
      → (b ≡ true → IsSpacedRound due more r)
      → (b ≡ false → IsSpacedRound due more r')
      → IsSpacedRound due more (if b then r else r')
  branch-IsSpacedRound r r' due more true h k = h refl
  branch-IsSpacedRound r r' due more false h k = k refl

  due_after-sum :
      (a : Action) (due : ℕ)
      → due ≤ l
      → IsDue due a
      → (due_after l due a ≤ l) × (l * one_sent a + due ≤ nap a + due_after l due a)
  due_after-sum a due h d = (ground arith, ground arith)

  -- The sends and the sleeps of such a list.
  pub IsSpaced-sum :
      (acts : List Action) (due : ℕ)
      → due ≤ l
      → IsSpaced l due acts
      → l * tally one_sent acts + due ≤ tally nap acts + l
  IsSpaced-sum [] due h s = omega (arith, h)
  IsSpaced-sum (a ∷ acts) due h s =
      let one = due_after-sum a due h s.0 in
      let ih = IsSpaced-sum acts (due_after l due a) one.0 s.1 in omega (arith, one.1, ih)

pub size_of_mono : (l : ℕ) (d : ℤ) → pos l ≤ℤ d → l ≤ size_of d
size_of_mono l (pos n) h = omega (arith, h)
size_of_mono l (negsuc n) h = absurd (omega (arith, h))
