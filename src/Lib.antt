-- ===== src/Lib.antt =====
-- Kuybi, a content platform's API (NestJS, TypeORM, PostgreSQL, Redis): models of the parts that decide
-- who gets in, what runs once, and what state a record may take.
--
-- The parts and how they meet. A request passes the rate limiter (Throttling), the guards (Acl) and,
-- for a mutating route, the idempotency interceptor (Idempotency). Logins go through the account
-- lockout (Auth, and Lockout over the table in Users) and open sessions (Sessions), whose refresh
-- tokens rotate; new passwords pass the history (Passwords). Stories change through their lifecycle (Stories), other
-- entries through theirs (Contents), and both are sorted by categories and tags (Categories, Tags). Jobs
-- leave through the outbox (Outbox), and calls of other services through the circuit breaker
-- (Resilience).
--
-- Which file models what:
--   Resilience   src/shared/utils/resilience.ts, class CircuitBreaker: one record for its fields; `begin`
--                is exec up to the call and `finish` what follows it, so that calls interleave.
--   Users        src/modules/users/repositories/user.repository.ts, the lockout statements.
--   Lockout      src/modules/auth/services/account-lockout.service.ts, one function to a method, in a
--                monad of a state and errors; queued jobs and emails are appended to the state.
--   Idempotency  src/core/idempotency/idempotency.service.ts and the entity; Idempotency/Interceptor is
--                src/core/idempotency/idempotency.interceptor.ts, `intercept` with the handler as an
--                argument; Idempotency/Changes is the relation of interleaved statements.
--   Sessions     src/modules/auth/repositories/session.repository.ts and session-list.util.ts (sessionState);
--                Sessions/Service is src/modules/auth/services/sessions.service.ts. Sessions/AccessCache is
--                isUsableForAccess with the cached statuses, by `cached` of
--                src/core/database/repositories/base.repository.ts.
--   Auth         src/modules/auth/services/auth.service.ts, validateUser; Auth/Tokens is login, refresh and
--                logout there, access-token.service.ts, token-blacklist.service.ts and
--                src/modules/auth/strategies/jwt.strategy.ts; Auth/Reset is password-reset.service.ts.
--   Acl          src/modules/acl/entities/live-roles.ts, src/modules/acl/guards, the role methods of
--                src/modules/users/entities/user.entity.ts, and
--                src/modules/users/services/user-roles.service.ts. Acl/Abilities is
--                src/modules/acl/abilities/ability.factory.ts and record-scope.ts. Acl/Roles is
--                src/modules/acl/services/roles.service.ts and its repository, and `remove` of
--                src/modules/acl/services/permissions.service.ts.
--   Stories      src/modules/stories/story-status.rules.ts,
--                src/modules/stories/services/story-lifecycle.service.ts,
--                src/modules/stories/services/story-access.policy.ts and
--                src/core/database/repositories/base.repository.ts. Stories/Threads is `update` of
--                src/modules/stories/services/stories.service.ts and the query of a story's ancestors.
--   Outbox       src/core/outbox/outbox-relay.service.ts and outbox-message.entity.ts.
--   Passwords    src/modules/auth/services/password-policy.service.ts and
--                src/modules/auth/repositories/password-history.repository.ts. The order in which the
--                database gives rows of one time is an argument.
--   Throttling   src/core/throttling/redis-throttler.storage.ts.
--   Slugs        src/shared/utils/slug.util.ts.
--   Categories   src/modules/categories/services/categories.service.ts and its repository, with the
--                unique index of the entity as a test that a write must pass.
--   Tags         src/modules/tags/services/tags.service.ts and its repository, likewise.
--   Contents     src/modules/post-types/services/content.service.ts and content-access.policy.ts, over
--                src/modules/post-types/repositories/post-content.repository.ts.
--   Prelude      shared names; tables as lists of rows (Prelude/Table) and methods (Prelude/Method).
--
-- How. A table is the list of its rows and a statement is one atomic step on it, with its WHERE as a
-- Boolean function: `modify`, `remove`, `count` and `find` are UPDATE, DELETE, the affected rows and a
-- look-up. Times are milliseconds, read from clocks that are arguments; random ids are arguments. Where
-- other requests may run between two statements of an operation, the theorems say so: what was read is
-- an argument, or the statements form a relation or a list. Errors are values.
--
-- Bounds. `begin` of the idempotency keys has the two rounds of the source's loop; the query of a story's
-- ancestors (Stories/Threads) has one round for each row and one more, enough since a round
-- that goes on adds a row that was not seen; nothing else needs fuel. Numbers are natural numbers; a subtraction that can fall below zero in
-- the source is written out where that matters (`excess_end` of Sessions/Service, `slice_to` of Slugs).
--
-- Not modelled: controllers and the validation of their input, the framework's wiring, caches (what a
-- cached read returns is an argument; only the access status of a session has its cache modelled, whose
-- slow fills are left out), logging, metrics, mail, queues and storage backends, CASL (what it decides is
-- an argument), password hashing and strength, fingerprints, Unicode folding, registration, the post types and the
-- validation of their fields, and the modules for countries, attachments and the audit log.
pub mod Prelude
pub mod Resilience
pub mod Users
pub mod Lockout
pub mod Idempotency
pub mod Sessions
pub mod Acl
pub mod Stories
pub mod Outbox
pub mod Passwords
pub mod Throttling
pub mod Auth
pub mod Slugs
pub mod Categories
pub mod Tags
pub mod Contents
