-- ===== src/Lib.antt =====
-- The rules of the ZTNET web application (services/ztnet) that decide who gets in, what a key may do,
-- and how the database follows the ZeroTier controller.
--
-- Parts, and the code that each one models (paths from services/ztnet/src/):
--   Common     shared names: tests on numbers and texts, JavaScript's list operations, `parseInt`,
--              `trim`, results with an error, and the lemmas on them.
--   Access     utils/role.ts and utils/networkAccess.ts: `checkUserOrganizationRole` and
--              `checkNetworkAccess` on the two tables that they read.
--   Token      utils/encryption.ts, `decryptAndVerifyToken`.
--   ApiRoute   utils/apiRouteAuth.ts and `handleApiErrors` of utils/errors.tsx: the wrappers of the REST
--              routes. They call Token for the key and Access for the role, and hand on to a handler.
--   Login      lib/auth.ts, `runBeforeAuthHook`; Login/Session: `onSessionCreated`, `onUserCreateBefore`,
--              `onUserCreateAfter`. The first hook counts failed sign-ins, the second clears the count.
--              A hook is one step here: sign-ins that overlap are not modelled.
--   LiveSync   server/sync/syncManager.ts: `acquire`, `release` and `tick`. A tick is two steps, before
--              and after its `await`, and the step relation takes viewers, timers and ticks in any order.
--   Routes     server/api/services/routesService.ts, `syncNetworkRoutes`: the plan, and the transaction
--              that applies it.
--   Connection utils/memberConnection.ts: the state of a connection, from the peers' paths.
--   Observation server/api/utils/memberObservation.ts: what a reading of the controller, with the status
--              from Connection, changes in a member's row.
--   Outbox     server/notifications/service.ts: the deliveries, their claims and their states, as a step
--              relation over several workers, and a worker's round; `retry` of notificationRouter.ts.
--              Outbox/Events: `statusEventTypes` and `persistObservedMember`, which store an observation.
--   Limits     utils/passwordPolicy.ts and utils/rateLimit.ts: the policy, the limits, and the identifier
--              of a client.
--   Account    the columns of a user and of the password row that sign-in reads, and
--              server/api/services/credentialAccountService.ts.
--   Registration server/api/routers/authRouter.ts, `register`: the checks, and in Registration/Commit the
--              transaction, as runs of any number of requests; organizationAuthService.ts.
--   Password   authRouter.ts, `update`, and in Password/Reset the links: `passwordResetLink`,
--              `validateResetPasswordToken` and `changePasswordFromJwt`, as runs with Registration, each
--              request in one step. They write Account's rows, and queue a message in Outbox.
--   TwoFactor  pages/api/auth/two-factor/totp and `mfaResetValidation` of mfaAuthRouter.ts, as runs
--              in which the checks and the writes of the requests interleave.
--   Token/Issue authRouter.ts, `addApiToken` and `deleteApiToken`, whose keys Token reads.
--   Members    server/api/services/memberService.ts, `reconcileNetworkMembers` and `addNetworkMember`: the
--              rows of a network's members after the controller's; their live status is Observation's.
--   Ip         server/api/utils/ipUtils.ts, `getNextIP` and the conversions; utils/IPv4gen.ts,
--              `generateCidr`.
--   SingleFlight the guard of Routes and Members: `syncNetworkRoutesOnce`, `reconcileNetworkMembersOnce`.
--
-- A table of the database is a list of rows; `findFirst` and `findUnique` take the first row that fits;
-- times are milliseconds on ℕ, and a difference of two times is written as a sum. Errors are values.
-- One definition runs on fuel, the batches of Members, on as many steps as there are ids; all other
-- recursion is on lists. An address is a 32-bit number with its wrap-around written out. The other numbers
-- of the source stay far below the range where a JavaScript number is inexact, so they are natural numbers.
--
-- Not modelled: the user interface, the other tRPC procedures and the REST handlers, the
-- pages of members, the controller's client, mail and web hooks, and the other services of the
-- repository. Encryption, password hashes, one-time codes, signed
-- links, `JSON.parse`, user-agent parsing, random ids
-- and lower-casing of e-mail addresses are parameters, since other packages provide them.
pub mod Common
pub mod Access
pub mod Account
pub mod Token
pub mod ApiRoute
pub mod Login
pub mod LiveSync
pub mod Routes
pub mod Connection
pub mod Observation
pub mod Outbox
pub mod Registration
pub mod Password
pub mod TwoFactor
pub mod Limits
pub mod SingleFlight
pub mod Ip
pub mod Members
