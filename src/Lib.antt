-- ===== src/Lib.antt =====
-- Models of packages of this repository, and theorems about them.
--
-- packages/access-control decides whether a principal may do something. A policy lists rules; a rule
-- may have a condition, a tree of comparisons over what the application supplies.
-- AccessControl.Values has the JavaScript values that conditions and attributes are made of;
-- AccessControl.Resolve is packages/access-control/src/internal/resolve.ts, the walk along a dotted
-- path; AccessControl.Truth is packages/access-control/src/internal/truth.ts; AccessControl.Evaluate
-- is packages/access-control/src/internal/evaluate.ts; AccessControl.Roles is
-- packages/access-control/src/internal/roles.ts; AccessControl.Policy has the types of
-- packages/access-control/src/policy.ts and packages/access-control/src/decision.ts;
-- AccessControl.Validate is packages/access-control/src/internal/validate.ts with `definePolicy` and
-- `parsePolicy`, where Checks has the issues, Conditions and Rules the checks, and Declared the
-- description of what passes, the list of `in` and `nin` as lax as the check of it;
-- AccessControl.Engine is packages/access-control/src/engine.ts, where `explain` is `decide`;
-- AccessControl.Guard is `authorize` of packages/access-control/src/internal/guard-core.ts. The
-- modules below these prove their properties.
--
-- packages/auth-utils keeps sessions. Auth.Token is
-- packages/auth-utils/src/internal/token-format.ts, Auth.Family is
-- packages/auth-utils/src/internal/refresh-state.ts, the decisions about one family of tokens,
-- Auth.Store is the refresh-token store of packages/auth-utils/src/stores.ts, and Auth.Refresh, with
-- Auth.Refresh.Steps, is packages/auth-utils/src/refresh.ts, the service that reads a family,
-- decides, and writes with compare-and-set, again while others win the race. Auth.RateLimit is
-- packages/auth-utils/src/rate-limit.ts with the attempt store of packages/auth-utils/src/stores.ts.
--
-- packages/cache-kit caches values. Cache.Memory is packages/cache-kit/src/backends/memory.ts, and
-- Cache.Client is `wrap` of packages/cache-kit/src/client.ts: an event is what one caller does
-- between two awaits.
--
-- packages/bootstrap runs a service. Bootstrap.Service is the machine of
-- packages/bootstrap/src/service.ts: resources are started and stopped one at a time, and an event
-- is what runs between two awaits. A shutdown called from within the first start is part of the event
-- of that start. Bootstrap.Service.Stops is its `stopAll`, Bootstrap.Probes its health probes, each
-- with a report of its own and the state at its arrival, Bootstrap.Checks is packages/bootstrap/src/internal/checks.ts, and
-- Bootstrap.Env is `loadEnv` and `requireEnv` of packages/bootstrap/src/env.ts.
--
-- packages/http-client makes requests. Http.Retry is packages/http-client/src/internal/retry.ts, and
-- Http.Path joins URLs as packages/http-client/src/internal/path.ts does.
--
-- A `Map` is the list of its entries in insertion order (Base.Maps), a `Set` the list of its
-- members. Code that may throw returns a Completion, an Option or an outcome of its own. Awaited
-- calls of a store run one after another; what other callers do between two of them is a list of
-- operations that a request is given (Attempt), so that a theorem about it holds for every
-- interleaving. A clock reading and a random text are arguments where the code takes them.
--
-- Numbers that code compares are doubles: a finite one is a whole multiple of 2^-1074. Times and
-- counters are natural numbers. A getter of an attribute throws or returns a fixed value; proxies
-- and prototypes are not represented, and no text holds an unpaired surrogate. The digest of a
-- secret is a parameter.
--
-- A wait is counted in a unit that makes it whole.
--
-- The validator lists the keys of an object in the order of the model's fields, and says of an issue
-- where it is and of which kind; the text of a message is left out, and with it that JSON.stringify
-- may throw on an operator that it cannot print.
--
-- Fuel: `evaluate` and `checkCondition` have 32 units, which is MAX_CONDITION_DEPTH itself.
-- `reach_loop` of Roles has as many as there are edges, and one more: it pops a role once for every
-- time that it was pushed. The loops of `rotate` and `revokeById` count down the configured retries,
-- and that of `executeWithRetry` the attempts.
--
-- Not modelled: JWT and passwords, which rest on third-party packages; the Redis backend and the
-- adapters to web frameworks, which pass values on; the requests of http-client, which rest on
-- `fetch`, and the parameters of its paths; the parsers of numbers, booleans and URLs and the HTTP
-- server of bootstrap; core, api-kit and logger.
pub mod AccessControl
pub mod Auth
pub mod Base
pub mod Bootstrap
pub mod Cache
pub mod Http
