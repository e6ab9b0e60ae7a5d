-- ===== src/Lib.antt =====
-- Verification of the circuit breaker library in pkg/, with the root package, the fake
-- server and the demo.
--
-- The program. `Do` sends an HTTP request for its caller. On the way it asks the machine of the
-- circuit (pkg/state.go) for admission, takes a slot of a semaphore, and then makes rounds: it waits for
-- the global Retry-After gate, takes a token from the bucket that a goroutine refills, sends, and
-- either returns or waits and goes on. Every round is recorded in the metrics of its host and endpoint;
-- at the end the machine hears the outcome. A manager keeps breakers by name.
--
-- The files.
--   Errors       pkg/errors.go; `localOpError` of pkg/state.go; `isRetryable` of pkg/circuitbreaker.go
--   Breaker      pkg/state.go: `newBreakerState`, `allow`, `enterHalfOpen`, `report`, `classifyOutcome`
--   Ring, Wheel  pkg/metrics_state.go: `floatRing`, `timeRing`, `bucketWheel`
--   Endpoint     pkg/metrics_state.go: `familyState`, `endpointState`; pkg/endpoint_metrics.go
--   Metrics      pkg/circuitbreaker.go: `updateMetrics`, the `record…` methods, `Metrics`
--   Circuit      pkg/circuitbreaker.go: the struct, `NewCircuitBreaker`, `initTokenBucket`, `Stop`
--   Bucket       pkg/circuitbreaker.go: `waitForToken` and the refill as steps of the bucket
--   Options      pkg/options.go
--   RetryAfter   pkg/circuitbreaker.go: `parseRetryAfter`, `extendRetryAfterGate`, `waitRetryAfterGate`
--   Request      pkg/circuitbreaker.go: `Do`, `drainAndClose`, `cancelOnClose`
--   Shared       pkg/circuitbreaker.go: calls of `Do` on one breaker, action by action, in any order
--   Manager      pkg/manager.go
--   Ports        pkg/ports_manager.go, pkg/ports_circuitbreaker.go: the interfaces, records of operations
--   Spec         pkg/spec.go: `ConfigureManager`, on the map and on its sorted entries
--   Root         circuitbreaker.go: the functions of the package at the root
--   Server       internal/fakeserver.go
--   Demo         cmd/main.go, whose calls are those of Shared on a breaker of Manager
--   Base, Dict, Float, Tests: shared names, maps by string, the operations of float64, and runs.
-- Each file's children hold its proofs and are named for what they are about.
--
-- The model. A type of the source is a record or a data type with the source's fields; a method
-- that runs under a mutex is a function from the state to the new state, so that an interleaving of
-- goroutines is a sequence of such calls (Breaker.Concurrent, Bucket, Server.History, Shared).
-- Times and durations are integers of nanoseconds, and int64, uint64 and int32 wrap where the
-- source lets them. A channel of empty structs is its capacity and the number of its values. `Do`
-- gives the list of its actions on the shared state and the way it ends; what clocks, waits, the
-- transport and the random draw do is an argument, of which nothing is assumed; the transport may
-- also never come back. A wait that does not end is an ending of its own. The tokens of a tick of
-- the refill are offered one by one, and the deadline of the default timeout may pass between any
-- two actions of a call or after it (Request.Deadline). The parsing of HTTP dates, the sorting
-- of strings and the arithmetic of float64 are parameters.
--
-- Bounds. The loops of the source are structural recursions on what bounds them: the retries that are
-- left (`MaxRetries + 1` rounds), the doublings of the backoff, the seconds of the wheel, the tokens of a
-- tick. The gate's loops run over the list of what they meet. There is no other fuel.
--
-- Not modelled: the text that the demo prints and its clock; the text of
-- errors; the type aliases of circuitbreaker.go, which name the types of pkg; the printing, the
-- routing and the sockets of the fake server.
pub mod Base
pub mod Errors
pub mod Breaker
pub mod Float
pub mod Ring
pub mod Wheel
pub mod Dict
pub mod Endpoint
pub mod Metrics
pub mod Circuit
pub mod Options
pub mod Bucket
pub mod RetryAfter
pub mod Manager
pub mod Spec
pub mod Root
pub mod Request
pub mod Ports
pub mod Shared
pub mod Server
pub mod Demo
pub mod Tests
