-- ===== src/Lib.antt =====
-- Mailfold's backend: the parts that decide who is let in, how often, and what is sent when.
--
-- The backend (backend/) puts a web interface before a mailcow server. Every request carries a
-- bearer token. Three session managers give tokens out and check them: the administrator's
-- (backend/internal/auth/auth.go), webmail's (backend/internal/webmail/session.go) and the domain
-- administrators' (backend/internal/domainadmin/session.go). Each keeps its tokens in a map or,
-- once a database is attached, in one table that all three share
-- (backend/internal/sessionstore/store.go). Login attempts pass a limiter
-- (backend/internal/ratelimit/ratelimit.go). Messages to be sent later wait in a queue
-- (backend/internal/scheduledsend/store.go), from which a ticker claims those that are due. The
-- stores encode instants by backend/storage/storage.go.
--
-- Prelude: the libraries' names that all parts use, tests on numbers, Go maps (Assoc) and texts
--   (Text).
-- RateLimit: `New`, `Allow` and `GC`. Window follows one key through a history, Live states what a
--   window lets through, Sweep that sweeping shows in no answer.
-- Storage: `Unix` and `FromUnix`.
-- Sql: a database connection. A statement acts on the tables or reports an error, as the
--   environment chooses for each; a sequence stops at the first error; a transaction that fails
--   leaves no trace. Laws, Triple and Ideal carry properties of statements over to sequences and
--   transactions; Table and Rows are what the statements do to a list of rows.
-- SessionStore: the token table, a list of rows, with every method of the store. Cell is the
--   contract of one token, Isolation keeps tokens apart, Keys is the primary key.
-- Auth: `Authenticator` with every method, in memory and over SessionStore. SecondFactor and
--   Budget follow a login that waits for its code, Validity, Login, Revoke and Sweep say what
--   `Validate` accepts after each method.
-- WebmailSession: `Sessions` with every method, in memory and over SessionStore. Contract and
--   Visits state and prove one contract for both, Pending and Mint draw from it.
-- Http: `Response` and the steps of a handler, as in backend/internal/api/response.go. Ends says
--   how a handler can end.
-- ApiKey: Store is the table of backend/internal/apikey/store.go, Scopes and Token are scopes.go
--   and token.go beside it, Gate, Mint and Revoke the handlers of backend/internal/api/apikeys.go.
--   Revocation follows a revoked row, Admission and Refusal say which requests pass, Compensation
--   what a refused creation leaves at mailcow. Runs has the examples.
-- SharedMailbox: Defs is backend/internal/sharedmailbox/store.go, Handlers
--   backend/internal/api/webmail_shared.go, Admin backend/internal/api/shared_mailboxes_admin.go.
--   Guards gives the shape of a handler behind its session; Notes, Assignments, Access, Counts and
--   Deletion take one operation each.
-- AdminStore: Defs (accounts) and Codes (recovery codes, reset tokens, devices, security keys) are
--   backend/internal/admin/store.go. Accounts follows the setters through the fallback that creates
--   a row, SingleUse and Tokens follow a recovery code and a reset token (Attempts).
-- WebPush: Store is backend/internal/webpush/store.go; Keys follows the server's key pair.
-- Dav: Store is backend/internal/dav/store.go; Objects says what a stored object is read back as.
-- LoginAlerts: `loginFailureTracker` of backend/internal/api/security_alerts.go; Streak follows a
--   burst.
-- DomainAdmin: `Sessions` with every method, in memory and over SessionStore; Access follows a
--   token. Store is backend/internal/domainadmin/store.go; Offers says which domains a provider
--   serves.
-- ScheduledSend: the queue with every method. Order carries unique ids through selection and
--   ordering, Claim computes a claim's transaction, Exclusive and Once say what claims hand out,
--   Steps and Keys keep facts of the rows through every method. Dispatch is the ticker and the
--   handlers of backend/internal/api/webmail_scheduled.go with the validation of
--   backend/internal/webmail/send.go; AtMostOnce, History and Delivery follow a message to the SMTP
--   server, over histories in which a dispatch is one step. Machine takes the dispatcher's claims
--   and hand-overs one by one, with crashes and with restarts (ResetStale in
--   backend/internal/api/server.go) between them; Interleaved (with Taken) and Cancellation
--   (with Settled) follow a message there. Sort is an ordering for the examples.
--
-- A method is a function from its arguments and the state to its answer and the next state. The
-- clock reading, a drawn token and a drawn nonce are arguments; instants are nanoseconds since
-- 1970 on the natural numbers, and Go's zero time is a value of its own. A method is one step: in
-- memory a mutex makes it so, and over a table its statements are taken to run without another
-- call's in between. An error is a value of `Result`. SHA-256, bcrypt, AES-GCM, encoding/json,
-- ORDER BY and the assignment of ids are parameters; what is asked of them stands in the `Env`
-- records and among a theorem's hypotheses. All loops are structural recursion, so nothing runs on
-- fuel.
--
-- mailcow, SMTP and IMAP are parameters too: a dialogue with mailcow is a state of any type with
-- the calls as functions on it.
--
-- Not modelled: opening a database and creating its tables, the HTTP of the mailcow client, the
-- routes and the middleware, the handlers that are not named above (the creation of a shared
-- mailbox among them), IMAP and SMTP, the protocols of CalDAV and CardDAV, the sending of push
-- messages, the audit log, the accounts of webmail users, configuration, metrics and the web front
-- end; and the overflow of instants, which begins in the year 2262.
mod Prelude
pub mod RateLimit
pub mod Storage
pub mod Sql
pub mod SessionStore
pub mod Auth
pub mod WebmailSession
pub mod DomainAdmin
pub mod ApiKey
pub mod LoginAlerts
pub mod SharedMailbox
pub mod ScheduledSend
pub mod Http
pub mod AdminStore
pub mod WebPush
pub mod Dav
