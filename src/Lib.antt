-- ===== src/Lib.antt =====
-- Ludock, a self-hosted manager of game servers in Docker containers: models of its core services and
-- theorems about them.
--
-- The program. Discovery turns what Docker reports into observations. The identity store
-- (internal/identity) maps them to logical servers, each with a binding to one container that an
-- administrator has accepted. Accounts and their sessions (internal/db/accounts.go) say who asks;
-- authorization (internal/authz) says what the account may do with a logical server; operations take
-- their keys in one lock table (internal/locks), so that two never work on the same server, volume or
-- path. Every operation is saved before it acts, and a runner (internal/ops) carries out the saved
-- ones; the network console (internal/netconsole) speaks to the game; the monitor (internal/monitor)
-- watches the servers and raises alerts, and events (internal/events) tell viewers of changes.
--
-- The files.
--   Common         shared helpers: Go's tests and loops over native numbers and lists, equality as an
--                  interface, and results with the errors of internal/apperr.
--   Database       the rows of the SQLite tables (internal/db/migrations.go) as records, and the
--                  UPDATE, DELETE and SELECT statements that touch several rows.
--   Accounts       internal/db/accounts.go, a function for each method of DB: FindSessionUser is
--                  find_session_user, and so on. Each takes the database and returns it changed.
--                  Accounts.Attempts has the sign-in throttle.
--   Observation    internal/identity/identity.go up to ExternalIdentity and BindingDigest.
--   Identity       the methods of Store on stored servers: ResolveBinding, AssertObservedBinding,
--                  ReviewBinding.
--   Reconcile      Store.Apply, the reconciliation of one complete snapshot.
--   Authz, Grants  internal/authz/authz.go: Access and Assert, EffectiveAll in Authz.Overview, and
--                  SetUserGrants.
--   Locks          internal/locks/locks.go, each method a step of the table.
--   Netconsole     internal/netconsole/netconsole.go: Rcon has the Source RCON frames,
--                  SourceSession the loop of SourceRCON over the events that it selects, Telnet the
--                  decoder of Telnet commands.
--   Monitor        internal/monitor/monitor.go: one turn of Check for one server, with the writes of
--                  others that come between its read and its writes as functions on the table.
--                  Monitor.Operations has the other operations, Problems and the whole of Check.
--   Ops            internal/ops/ops.go: Job and Queue have the saved rows and every write to them, Runner
--                  the state of the runner, Filling and Turns the moves of its goroutines, Restart the recovery of a
--                  start, Moves the relation of all of them in any order. Journal is Recovery.
--   Events         internal/events/events.go: a batch of changes from the database before the refresh to
--                  the one after it, and what each viewer is sent.
--   Schedtime      internal/schedtime/schedtime.go: the slots and the next run of a schedule.
--   Schedules      internal/schedules: Settings validates them, Authority and State are what the owner
--                  may do, Run is one schedule's turn and Recording what is noted of it.
--   Tarstream      internal/tarstream/tarstream.go: Numerals and Text are the calls of strconv, utf8 and
--                  strings, Fields the fields of a header, Header its block, Pax the records before it
--                  and Encode the whole of EncodeHeader.
--   Signin         internal/auth/service.go: Login, with what others write while it works.
--   Paths          path.Clean and strings.Split of Go's library, as the source calls them.
--   Examples       the theorems at concrete inputs.
--
-- How state is modelled. The database is a record of lists of rows. A transaction is a function into a
-- result: on an error the caller keeps the database it had, which is DB.Tx's rollback. Errors of the
-- SQLite driver are left out, except where a key of sessions is taken, where a row does not scan and
-- where the monitor goes on after a failed write. JSON columns are decoded, or decoded by a parameter;
-- the keyed digest of a binding and the making of new ids are parameters. Otherwise SQL keys are
-- unique only where a theorem says so. Texts that the code walks are bytes; the others are native
-- texts with equality alone. Times and counters are natural numbers, and each file says where a signed
-- difference matters.
--
-- Bounds and fuel. The RCON loop recurses on fuel, the length of the buffer; every packet is longer
-- than one byte, so the loop ends before the fuel does.
-- AcquirePreempting's loop recurses on the list of its waits. parsePAX has the number of bytes as fuel,
-- of which every record takes some; paxRecord's loop has three rounds; NextRun looks at sixteen days, as
-- the code does. A number has as many digits as itself at most, and one more, which is the fuel of its
-- printing. Everything else is structural.
--
-- In Ops a move is what a goroutine does under the mutex or in one statement; what the database does
-- not save is tried again, so a move is the attempt that succeeds, or giving up. Handlers are any
-- code: what they come back with is an argument.
--
-- Not modelled. The wait of WithLocks for its keys and the notification of failed schedules in
-- internal/ops; setup, password changes, PasswordWork and requests in internal/auth. Pruning of the
-- audit log, settings and listings of accounts, the lists that UserGrants returns, the stream of
-- Docker events, dialing, the Telnet loop and WebRCON in internal/netconsole, LocalDate and the
-- cache of zones in internal/schedtime, the writes of users to schedules and the warnings in
-- internal/schedules, Walk, applyPAX and times with a fraction in internal/tarstream, and the packages
-- on jobs, files, backups, Docker
-- and the web pages.
pub mod Common
pub mod Database
pub mod Accounts
pub mod Paths
pub mod Observation
pub mod Identity
pub mod Reconcile
pub mod Authz
pub mod Grants
pub mod Locks
pub mod Netconsole
pub mod Monitor
pub mod Ops
pub mod Signin
pub mod Events
pub mod Schedtime
pub mod Schedules
pub mod Tarstream
pub mod Examples
