-- ===== src/Lib.antt =====
-- A verification library for Concord (concord_core), a client runtime for HTTP interfaces.
--
-- The parts of the runtime and how they meet. A generated endpoint makes a request plan. Its policy
-- gathers headers, query, timeout and rate limits layer by layer; the client sends the plan through the
-- rate limiter and the managed client, with a credential from a slot that callers share; a paginated
-- endpoint repeats this page by page under a termination.
--
-- * Auth (concord_core/src/auth/credentials.rs, auth/errors.rs): the credential slot. Auth.Slot has its
--   state, and children for its critical sections: Poll is a turn of the loop in `get_or_refresh` up to
--   the first await, Commit is `commit_slot_result`, in its two sections, and the drop of `RefreshGuard`,
--   Revoke is the invalidation, `set_manual`, `clear_manual` and `get_cached`. Auth.System lets any
--   number of calls interleave: a step is one critical section of one call, its drop, or an operation
--   from outside, and `Reach` is a run of steps. Its children carry the invariant over the steps.
-- * Auth (planning: auth/plan.rs, auth/ids.rs, auth/orchestrator.rs): Uses has the requirements of an
--   endpoint, Placement is `AuthPlacementPlan::from_auth_plan` with its child Public for the public
--   request and its child Targets for the part of a request that a placement takes, Material is what
--   `AuthApplicationRequest` makes of a credential and the check that binds it to its slot, Rejection
--   has the actions after a rejection, Binding is `AuthProviderBinding` and Orchestrator its `prepare`,
--   `plan_rejection` and `apply_rejection`.
-- * Transport (transport.rs): `materialize_authentication`, which writes materials into the request.
-- * Client (client/execute.rs): Challenge classifies a rejection, Prepare is a round of
--   `drive_executions` up to the call that sends, Execute is the rest of the round and the loop. Run has
--   the variables of the loop and its actions, which pass a state on with the world and a log of what was
--   sent, released and applied. Course and its children say which logs there are.
-- * Client.Send (client/send_flow.rs): `send_and_observe_once`, one visible execution: the rate limit, the
--   limit of the body, the hooks, the credentials and the server, with a log of these calls.
-- * Client.AuthHttp (client/auth_http.rs): the calls of providers, with the stack of the keys that are
--   being prepared. A provider works on a world that has this stack, so that calls nest.
-- * Body (body.rs, and `BoundedResponseStream` of transport.rs): adapters of bodies that are polled, each a
--   function from a body to a body. Runs polls a body a number of times.
-- * Headers (header_ownership.rs, redaction.rs): the classifiers of names (Text, Names), the sanitizers of
--   header maps and addresses (Sanitize), and the validation of public headers (Ownership). Bearing
--   describes the names that a public header or a credential may not have, apart from the classifiers.
-- * Plan (endpoint/plan.rs, and `RequestOptions` of request.rs): the parts of a plan that pagination
--   reads.
-- * Pagination (pagination.rs, pagination/, request.rs): the contracts, the three controllers (Offset,
--   Paged, Cursor), `PaginationRuntimeAdapter` (Adapter), the identity of a request (Identity), and the
--   loop of `collect_with_pagination_runtime` (Collect, Loop). A round is a chain of results: `prepare`,
--   the call of `execute`, `absorb`. Loop.Views lists how a round ends, Loop.Induction is induction over
--   rounds, and Loop.Outcome and Loop.Items use it.
-- * RateLimit (rate_limit/): plans, keys of cooldowns and windows (Keys), the map of cooldowns
--   (Cooldown), what a response says and stores (Response), and the map of windows with its eviction
--   (Windows; Timely, Pruning and Returned are about the next pruning and the limiter that a window is
--   given). `Response.Moves` is a sequence of calls in the order of time.
-- * Policy (policy.rs): headers and query, and who decides `Accept`.
-- * Retry (retry_mode.rs): the retries that the managed client is built with.
-- * Error (error.rs, rate_limit/error.rs): the errors that these parts raise.
-- * Base (the shared module): names of the libraries, results with early return, checked machine
--   integers, sets as lists.
--
-- Conventions. A critical section under a lock is one function from state to state; locks are not
-- poisoned. Time is a number of nanoseconds that the caller passes in for each reading of the clock, and
-- an `Instant` ends at `instant_max`. `usize` has 64 bits; additions are checked where the source checks
-- them. A hash map or set is a list. An error is told by its kind; the texts of messages are left out.
--
-- Bounds and fuel. The loop of a collection has fuel for one round more than there are page indices of
-- 32 bits, and each round but the last moves the index on by one, so the fuel never runs out. The loop of
-- `drive_executions` has fuel for its rounds, and two are enough, since one recovery is all it starts.
-- `collect_bytes` has fuel for the polls of a body, and gives a result within the polls to its end.
-- All other functions are structural.
--
-- Parameters: of the crates http, url and reqwest, header maps, addresses and requests, as records of
-- operations with their documented laws where a theorem needs them, and `HeaderName::from_bytes`; of
-- an execution, the resolution of the public head, the credentials' bindings, the production of the
-- body, the hooks, the rate limiter and the server, in a world of any type; of a body, the body of the
-- crate http_body that an adapter polls; the credential's time of expiry, the provider's answers, the
-- endpoint's plan and the execution of a request in a world of any type, the limiters of the crate
-- `governor`, the parsed `Retry-After` header, and the host of an authority. Where a theorem on
-- collections speaks of the items of a page, it takes the documented contract of
-- `PageItems::item_count`, that it is their number.
--
-- Not modelled: reqwest's transport; adapters of streams, readers and files, codecs and multipart
-- forms, which are asynchronous input and output; providers of credentials (auth/providers.rs); debug
-- output; observation of the life of a credential, which only development builds have; the macros.
pub mod Base
pub mod Error
pub mod Headers
pub mod Auth
pub mod Body
pub mod Transport
pub mod Client
pub mod Plan
pub mod Pagination
pub mod RateLimit
pub mod Policy
pub mod Retry
