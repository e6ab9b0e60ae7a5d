-- ===== src/Errors.antt =====
-- pkg/errors.go, and the error chains that the package inspects: `errors.Is`, `errors.As`, and the
-- classification `isRetryable` of pkg/circuitbreaker.go.
-- An error value is a chain of causes; errors that wrap several causes at once do not occur.
use circuit_breaker.Base.{ℕ, Bool, true, false, ◌||◌, Option, none, some}

-- `net_error` is any leaf that implements `net.Error`, with the answers of its methods `Timeout` and
-- `Temporary`; `net_wrap` is one that also unwraps to a cause. `wrapped` is `fmt.Errorf` with `%w`.
-- `invalid_request` is the error of `Do` for a nil request, and `other` any further error.
pub data Err : Type 0 where
  stopped circuit_open invalid_request canceled deadline_exceeded retries_exhausted_nil : Err
  other : ℕ → Err
  net_error : Bool → Bool → Err
  net_wrap : Bool → Bool → Err → Err
  url_error wrapped local_op_error retries_exhausted : Err → Err

-- The values that the package hands to `errors.Is`.
pub data Sentinel : Type 0 where
  err_stopped err_circuit_open err_canceled err_deadline_exceeded err_retries_exhausted : Sentinel

-- One link of the chain equals the target, or its own `Is` method says so.
pub matches : Sentinel → Err → Bool
matches err_stopped stopped = true
matches err_circuit_open circuit_open = true
matches err_canceled canceled = true
matches err_deadline_exceeded deadline_exceeded = true
matches err_retries_exhausted retries_exhausted_nil = true
matches err_retries_exhausted (retries_exhausted _) = true
matches _ _ = false

-- The chain that `Unwrap` gives, searched for a link with the property.
pub any_link : (Err → Bool) → Err → Bool
any_link p (net_wrap t q e) = p (net_wrap t q e) || any_link p e
any_link p (url_error e) = p (url_error e) || any_link p e
any_link p (wrapped e) = p (wrapped e) || any_link p e
any_link p (local_op_error e) = p (local_op_error e) || any_link p e
any_link p (retries_exhausted e) = p (retries_exhausted e) || any_link p e
any_link p e = p e

unfoldable pub errors_is : Err → Sentinel → Bool
unfolding any_link matches
errors_is e s = any_link (matches s) e

pub is_local_op : Err → Bool
is_local_op (local_op_error _) = true
is_local_op _ = false

pub is_url_error : Err → Bool
is_url_error (url_error _) = true
is_url_error _ = false

unfoldable pub as_local_op : Err → Bool
unfolding any_link is_local_op
as_local_op = any_link is_local_op

unfoldable pub as_url_error : Err → Bool
unfolding any_link is_url_error
as_url_error = any_link is_url_error

-- `Timeout()` and `Temporary()` of an error that has them. A `*url.Error` asks its cause by a direct
-- type assertion, which does not look through `wrapped`.
pub methods : Err → Option (Bool × Bool)
methods deadline_exceeded = some (true, true)
methods (net_error timeout temporary) = some (timeout, temporary)
methods (net_wrap timeout temporary _) = some (timeout, temporary)
methods (url_error e) = elim (methods e) [ none ↦ some (false, false) | some m ↦ some m ]
methods _ = none

-- `errors.As(err, &netErr)`: the first link that implements `net.Error`.
pub as_net_error : Err → Option (Bool × Bool)
unfolding methods
as_net_error (wrapped e) = as_net_error e
as_net_error (local_op_error e) = as_net_error e
as_net_error (retries_exhausted e) = as_net_error e
as_net_error e = methods e

unfoldable pub is_retryable : Err → Bool
unfolding as_net_error
is_retryable e = elim (as_net_error e) [
  | none ↦ false
  | some (timeout, temporary) ↦ temporary || timeout
]
