-- ===== src/Lib.antt =====
-- OpsFlow-MS: a back end for cash movements of organizations with branches. This library models the
-- services of the repository as functions on explicit state and proves what makes them correct.
--
-- The parts, and the file that models each:
--   Shared          texts, lists, options and maps as JavaScript treats them (trim, upper and lower
--                   case of ASCII, truthiness, String(n), Number(s), Map)
--   Errors          src/common/errors/error-codes.ts, the exceptions of NestJS that the services throw
--                   and the errors of the database client; Errors/Result is a handler that only reads,
--                   Errors/Action one that also writes, where what was written before an error stays;
--                   Errors/Filter is src/common/filters/global-exception.filter.ts
--   Tenancy         src/common/tenancy/tenant-scope.util.ts
--   AuthContext     src/auth/auth-context.util.ts
--   Rbac            src/common/rbac
--   Db              the delegates of the Prisma client as a parameter: a record of the calls that the
--                   services make, over an abstract store, with what Prisma documents of them;
--                   Db/Memory is a table in memory that meets it, Db/Single is `update` by key,
--                   Db/Pages a listing with skip and take
--   Branches        src/branches: Repository, Access (branch-access.service.ts) and Service
--   Users           src/users/users: Repository, Dto (requests and answers) and Service
--   CashMovements   src/cash-movements: Transition (the validator), Repository, Input (the DTOs, dates
--                   and amounts) and Service
--   Cashflow        src/cashflow/cashflow.service.ts
--   LoginAttempts   src/auth/login-attempt.service.ts, its store in memory; LoginAttempts/Redis has the
--                   store in Redis, with its script as a function of the commands that it runs
--   RateLimit       src/common/guards/rate-limit.guard.ts, its counters in memory; RateLimit/Redis has
--                   those in Redis and what the guard falls back to
--   Guards          src/auth/guards/permissions.guard.ts and csrf.guard.ts, and
--                   src/auth/strategies/jwt.strategy.ts; Guards/Global is jwt-global.guard.ts
--   Auth            src/auth/auth.service.ts: Registration, Sessions, Login, Passwords and Profile
--   Metrics         src/common/metrics/metrics.service.ts, and Metrics/Interceptor, which is
--                   src/common/interceptors/request-logging.interceptor.ts; Metrics/Health is
--                   src/health/health.service.ts
--   Audit           src/audit: the interceptor and the service. A write of an entry that was started and that
--                   nobody waits for ends at any later time, in any order; Audit/Log is about such runs
--   Controllers     the guards and permissions of the endpoints of all controllers (Access), the cookies
--                   and the handlers of src/auth/auth.controller.ts that set or read them (Cookies)
--   Seed            prisma/seed.ts: the numbers from the environment, and the demo movements (Seed/Actors
--                   has who may act in them)
--
-- How they interact: the strategy (Guards.validate) builds the context of the user that every service
-- takes (AuthContext); the guards read the same roles, and Guards.Global puts them in the order in
-- which a route runs them, with the permissions that Controllers.Access gives each endpoint. The
-- services of movements and statistics ask Branches.Access for the branch a user may act on, and the
-- repositories check the organization with Tenancy. A login runs between the checks and the counts of
-- LoginAttempts and writes a session; the controller turns its tokens into cookies and a refresh reads
-- them. Users writes the table of users that Guards and Auth read. What a handler throws is answered by
-- Errors.Filter, and Metrics.Interceptor and Audit see the request either way.
--
-- Correspondence: a function has the name of the method it models, in lower case with underscores
-- (resolveBranchForFilter is resolve_branch_for_filter), and takes the services' fields, the tables, as
-- sections' parameters. A handler with more than one phase is split where the source awaits a write, as
-- check_transition and write_transition. Ids, times and salts that the program draws are arguments.
-- Times are natural numbers of milliseconds; a difference that would be negative stops at 0, where
-- every comparison of the source answers the same. The only fuel is that of the decimal digits of a
-- number (Shared.Text), where the number itself is enough; every function is total.
--
-- Not modelled: start-up, configuration, the upserts of the seed, and the scripts, and the handlers
-- of controllers that only pass their arguments on. A message text is left out where the place that
-- throws has a constant one; the filter takes whatever message the exception has. Hashing, signing,
-- decimals, the parser of dates, the client of Redis, with what Redis documents of the commands, and
-- what passport makes of a token are parameters.
pub mod Shared
pub mod Errors
pub mod AuthContext
pub mod Rbac
pub mod Tenancy
pub mod Db
pub mod Branches
pub mod CashMovements
pub mod LoginAttempts
pub mod Guards
pub mod RateLimit
pub mod Seed
pub mod Cashflow
pub mod Auth
pub mod Users
pub mod Metrics
pub mod Audit
pub mod Controllers
