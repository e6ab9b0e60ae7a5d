-- ===== src/Request/Spacing/Rounds.antt =====
-- A round of `Do` sleeps long enough after its send.
use circuit_breaker.Base.{
  ℕ, ◌-◌, ◌≡◌, refl, Bool, true, false, not, ◌&&◌, List, [], ◌∷◌, ◌++◌, arith, Option, none, some,
  Option-cases, inl, inr, if◌then◌else◌, ltb,
}
use circuit_breaker.Base.Int.{ℤ, pos, ltb_ℤ, ◌≤ℤ◌, ◌+ℤ◌}
use circuit_breaker.Base.Words.{int64, sub_time}
use circuit_breaker.Endpoint.{token_cancel, again, fail, succeed}
use circuit_breaker.Errors.{Err, errors_is, err_stopped}
use circuit_breaker.Circuit.{Circuit, size_of}
use circuit_breaker.Options.{backoff_for}
use circuit_breaker.Bucket.{wait_for_token}
use circuit_breaker.RetryAfter.{parse_retry_after, wait_retry_after_gate, retry_after_status}
use circuit_breaker.Breaker.{status_fails}
use circuit_breaker.Request.{
  Action, gate_extended, recorded, rewound, returned, panicked, waiting, drained, when, Request,
  Response, Env, Attempt, Transport, panics, hangs, responds, fails, leaves, goes_on, Ending, first,
  refuse, pause, rewindable, retryable, retry_after, on_response, on_failure, send, rewind_and_send,
  with_token, attempt_once,
}
use circuit_breaker.Request.Paced.{permitted, permitted_unsent}
use circuit_breaker.Request.Tally.{tally, one_sent}
use circuit_breaker.Request.Spacing.{
  IsSpaced-mono, IsSpacedRound, leaves-IsSpacedRound, ends-IsSpacedRound, first-IsSpacedRound,
  sent-IsSpacedRound, branch-IsSpacedRound, size_of_mono,
}

module _ (l : ℕ) (cb : Circuit) (req : Request) (env : Env) (a : Attempt) (more : Bool) (n : ℕ)
    (floor : pos l ≤ℤ backoff_for a.draw cb n) where
  pause-IsSpacedRound :
      (d : ℤ) (last : Option Err)
      → pos l ≤ℤ d
      → IsSpacedRound l l more (pause cb req env a more n d last)
  unfolding pause IsSpacedRound
  pause-IsSpacedRound d last h = elim (Option-cases a.interrupted) [
    | inl i ↦
        simp (i, pause)
          (λ rest s e.
            (tt, IsSpaced-mono l rest (l - size_of d) 0 (omega (arith, size_of_mono l d h)) s))
    | inr (x, i) ↦ simp (i, pause) tt
  ]

  when_unsent :
      (b : Bool) (x : Action) (acts : List Action)
      → one_sent x ≡ 0
      → tally one_sent acts ≡ 0
      → tally one_sent (when b (x ∷ []) ++ acts) ≡ 0
  when_unsent true x acts e z = omega (arith, e, z)
  when_unsent false x acts e z = z

  floored :
      (d : ℤ) → pos l ≤ℤ (if ltb_ℤ d (backoff_for a.draw cb n) then backoff_for a.draw cb n else d)
  floored d = ground (arith, floor)

  retry_after-IsSpacedRound :
      (r : Response) (delay : ℤ) (last : Option Err)
      → IsSpacedRound l l more (retry_after cb req env a more n r delay last)
  unfolding retry_after
  retry_after-IsSpacedRound r delay last =
      let capped = if ltb_ℤ cb.retry_after_max delay then cb.retry_after_max else delay in
      let until = a.gate_at +ℤ capped in
      let wait = sub_time until a.wait_at in
      let d = if ltb_ℤ wait (backoff_for a.draw cb n) then backoff_for a.draw cb n else wait in
      let again_acts = recorded (again a.start a.retry_at) ∷ [] in
      let acts = when r.has_body (drained ∷ []) ++ again_acts in
      let back = first acts (pause cb req env a more n d last) in
      let stay = leaves [] (returned (some r) none) last in
      let tries = more && rewindable cb req env a more n in
      first-IsSpacedRound l (gate_extended (int64 until) ∷ []) l more (if tries then back else stay)
        refl
        (branch-IsSpacedRound l back stay l more tries
          (λ t.
            first-IsSpacedRound l acts l more _
              (when_unsent r.has_body drained again_acts refl refl)
              (pause-IsSpacedRound d last (floored wait)))
          (λ f. leaves-IsSpacedRound l [] l more _ _ tt))

  on_failure-IsSpacedRound : (e : Err) → IsSpacedRound l l more (on_failure cb req env a more n e)
  unfolding on_failure
  on_failure-IsSpacedRound e =
      let stop = leaves [] (returned none (some e)) (some e) in
      let acts = recorded (again a.start a.retry_at) ∷ [] in
      let back = first acts (pause cb req env a more n (backoff_for a.draw cb n) (some e)) in
      let over = goes_on [] (some e) in
      let stops = leaves-IsSpacedRound l [] l more (returned none (some e)) (some e) tt in
      let tries = if more then back else over in
      let rewinds = not (rewindable cb req env a more n) in
      let fatal = not (retryable cb req env a more n e) in
      first-IsSpacedRound l (recorded (fail a.start a.done_at) ∷ []) l more _ refl (
        branch-IsSpacedRound l stop (if rewinds then stop else tries) l more fatal (λ t. stops)
          (λ t.
            branch-IsSpacedRound l stop tries l more rewinds (λ u. stops)
              (λ u.
                branch-IsSpacedRound l back over l more more
                  (λ m.
                    first-IsSpacedRound l acts l more _ refl (pause-IsSpacedRound _ (some e) floor))
                  (λ m. ends-IsSpacedRound l l more (some e) m))))

  on_response-IsSpacedRound :
      (r : Response) (last : Option Err)
      → IsSpacedRound l l more (on_response cb req env a more n r last)
  unfolding on_response
  on_response-IsSpacedRound r last =
      let counted =
        if status_fails (some r.status) cb.status_fail_min
        then fail a.start a.done_at
        else succeed a.start a.done_at in
      let done = leaves [] (returned (some r) none) last in
      let stops = leaves-IsSpacedRound l [] l more (returned (some r) none) last tt in
      let b = ltb_ℤ (pos 0) cb.retry_after_max && retry_after_status r.status in
      first-IsSpacedRound l (recorded counted ∷ []) l more _ refl (
        branch-IsSpacedRound l _ done l more b
          (λ t. elim (Option-cases (parse_retry_after env.parse_time r.retry_after a.header_at)) [
            | inl p ↦ rw (p) stops
            | inr (delay, p) ↦ rw (p) (retry_after-IsSpacedRound r delay last)
          ])
          (λ f. stops))

  send-IsSpacedRound :
      (last : Option Err) (t : Transport)
      → a.transport ≡ t
      → IsSpacedRound l 0 more (send cb req env a more n last)
  unfolding send
  send-IsSpacedRound last panics e =
      rw (e) (sent-IsSpacedRound l more _ (leaves-IsSpacedRound l [] l more panicked last tt))
  send-IsSpacedRound last hangs e =
      rw (e) (sent-IsSpacedRound l more _ (leaves-IsSpacedRound l [] l more waiting last tt))
  send-IsSpacedRound last (responds r) e =
      rw (e) (sent-IsSpacedRound l more _ (on_response-IsSpacedRound r last))
  send-IsSpacedRound last (fails x) e =
      rw (e) (sent-IsSpacedRound l more _ (on_failure-IsSpacedRound x))

  rewind_and_send-IsSpacedRound :
      (last : Option Err) → IsSpacedRound l 0 more (rewind_and_send cb req env a more n last)
  unfolding rewind_and_send
  rewind_and_send-IsSpacedRound last =
      let sends = send-IsSpacedRound last a.transport refl in
      let stops = λ (e : Ending). leaves-IsSpacedRound l [] 0 more e last tt in
      branch-IsSpacedRound l _ (send cb req env a more n last) 0 more (ltb 0 n && req.has_body)
        (λ t.
          branch-IsSpacedRound l _ (leaves [] panicked last) 0 more req.can_rewind
            (λ u.
              first-IsSpacedRound l (rewound ∷ []) 0 more _ refl (elim (Option-cases a.body_err) [
                | inl p ↦ rw (p) sends
                | inr (e, p) ↦ rw (p) (
                    first-IsSpacedRound l (recorded (fail a.start a.done_at) ∷ []) 0 more _ refl
                      (stops _))
              ]))
            (λ u. stops panicked))
        (λ f. sends)

  refuse-IsSpacedRound :
      (e : Err) (last : Option Err) → IsSpacedRound l 0 more (refuse cb req env a more n e last)
  unfolding refuse
  refuse-IsSpacedRound e last =
      let acts =
        recorded (fail a.start a.refused_at)
        ∷ when (not (errors_is e err_stopped)) (recorded token_cancel ∷ []) in
      let leave = leaves [] (returned none (some e)) last in
      first-IsSpacedRound l acts 0 more leave (ground arith)
        (leaves-IsSpacedRound l [] 0 more _ last tt)

  with_token-IsSpacedRound :
      (last : Option Err) → IsSpacedRound l 0 more (with_token cb req env a more n last)
  unfolding with_token
  with_token-IsSpacedRound last =
      elim (Option-cases (
        wait_for_token a.ctx_err a.woken
          (elim cb.tokens [ none ↦ none | some _ ↦ some a.bucket ]))) [
            | inl w ↦ simp (w, with_token) (leaves-IsSpacedRound l [] 0 more waiting last tt)
            | inr ((some e, c), w) ↦ simp (w, with_token) (refuse-IsSpacedRound e last)
            | inr ((none, c), w) ↦
                simp (w, with_token)
                  (first-IsSpacedRound l (permitted cb a) 0 more _ (permitted_unsent cb a)
                    (rewind_and_send-IsSpacedRound last))
          ]

  pub attempt_once-IsSpacedRound :
      (last : Option Err) → IsSpacedRound l 0 more (attempt_once cb req env a more n last)
  unfolding attempt_once
  attempt_once-IsSpacedRound last =
      elim (Option-cases (wait_retry_after_gate cb.retry_after_max a.gate_rounds)) [
        | inl w ↦ simp (w, attempt_once) (leaves-IsSpacedRound l [] 0 more waiting last tt)
        | inr (none, w) ↦ simp (w, attempt_once) (with_token-IsSpacedRound last)
        | inr (some e, w) ↦ simp (w, attempt_once) (refuse-IsSpacedRound e last)
      ]
