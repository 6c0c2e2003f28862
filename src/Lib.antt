-- ===== src/Lib.antt =====
-- The KODI backend: a set of NestJS services for cities, their users and their content. The
-- development models the logic of the services and the shared libraries that decides who may do
-- what, and the state machines behind it.
--
-- Parts, and where they stand:
--   Base      shared names: Boolean tests, searches in lists, the outcome of a call (`Run`: it
--             returns, it throws, or the fuel ran out), and the interfaces of the external stores.
--   Rbac      libs/rbac/src: roles (Roles: utils/role.utils.ts and `hasRole`), the hierarchy of
--             cities (Hierarchy: city-hierarchy.service.ts), permissions and their cache
--             (Permission: permission.service.ts), the scope of a user (Context:
--             user-context.service.ts) and the guards (Guards: *.guard.ts, guards/*.guard.ts).
--   Saga      libs/saga/src/saga-orchestrator.service.ts with the types of
--             libs/contracts/src/dto/saga.
--   Auth      apps/auth/src/modules/auth/auth.service.ts: sessions and logout (Session), login (Login),
--             refresh (Refresh), guests (Guest), the assignment of admins (Admins), what the service
--             asks of others (Services); and the tokens of libs/jwt/src/jwt.service.ts (Jwt).
--   Notification  the tokens of apps/notification/src/modules/verification (Verification) and
--             apps/notification/src/modules/password-reset (PasswordReset).
--   Users     apps/users/src/modules/users/users.service.ts: registration, guests and changes of users
--             (Accounts); apps/users/src/modules/terms/terms.service.ts: the terms of use (Terms).
--   Core      apps/core/src/modules/core/core.service.ts: the occurrences of an event (Occurrences),
--             the reminders of favorite events (Reminders, with their rows and tests in Notices), the
--             deletion of expired events (Expiry), the assignments of users to cities (Assignments);
--             apps/core/src/modules/listings/listings.service.ts: the moderation (Moderation) and the
--             favorites (Favorites).
--   Scheduler apps/scheduler/src/modules/tasks/tasks.service.ts: ticks, runs and their lock.
-- The guards and the auth service call the permission and context services, which call the
-- hierarchy. A function has the name of its method in snake case, `getChildCities` is
-- `get_child_cities` (`login` and `logout` are `log_in` and `log_out`); a private helper with another
-- name is a loop or a branch of the method that it stands above.
--
-- Code outside the repository is a parameter. A query of the database is a field of `CityDb` or
-- `PermissionDb`, one snapshot for each call, and answers `none` where it throws. Redis is the
-- interface `KeyStore`: a key that was set for some seconds is there for that time. Where a service
-- writes to its database, a table is the interface `Table`, and a call takes and gives back the
-- state of the service: its keys, its rows and the messages that it sent. A random value, an id and
-- the answers of other services are arguments too. Times are seconds, in Core milliseconds, and an
-- argument of each call. What a date is in the host's time zone is a parameter of Core.
-- A table of the users service has the unique keys of its schema: a row that breaks one is not stored.
-- What the services catch and turn into a value is modelled; logging and the texts of messages are
-- not.
--
-- Fuel: the recursion over child cities and the loop over parent cities take fuel. It is enough
-- when it exceeds a rank that falls from a city to its children, or to its parent; that is shown
-- where the parents form no cycle; on a cycle no fuel is enough for the recursion over child
-- cities. The loop that deletes expired events in chunks of 100 has the number of ids as its fuel,
-- which is enough because each chunk takes one at least; the loops over the dates of an interval
-- have the limit of 1000 that the code gives them. All other loops are structural.
--
-- Not modelled: the request handling of NestJS, the DTO classes, the generated database clients,
-- translations, metrics and logging, the metadata and the language of messages, apps/city,
-- apps/admin and apps/terminal, the devices and topics of apps/users, and of apps/core the
-- categories, tiles, tags and filters, the creation, update and queries of listings and their
-- mapping to answers. A failed write of an audit entry, a session or a run's log, which the code
-- ignores, is left out. A call is one step: two calls of a service do not interleave.
mod Base
pub mod Auth
pub mod Core
pub mod Notification
pub mod Rbac
pub mod Saga
pub mod Scheduler
pub mod Users
