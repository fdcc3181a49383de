-- ===== src/Lib.antt =====
-- nudo deploys binaries to Linux hosts over SSH and runs them under systemd, without containers. The
-- control plane (crates/server) keeps its rows in SQLite, talks to targets by shell commands, and can
-- upgrade itself; crates/bootguard guards that upgrade at boot.
--
-- Parts, and the files that model them:
-- - Prelude: shared names, tests on numbers, lists, text as a list of code points, results.
-- - Text: the functions of `str` that the sources use: trim, split, lines, numbers in decimal.
-- - BootGuard (crates/bootguard/src/lib.rs and main.rs). `Journal` is the struct and its text form;
--   `Dir` is the self directory: journal, counter and link, where a write fails before its rename,
--   after it, or not at all; `Guard.guard` is the body of `main`, `Guard.Boots.boots` runs it
--   once for each start of a list, where every start has its own outcomes of the file operations.
-- - Updates (crates/server/src/updates.rs, store/settings.rs). `Version` compares versions, `Ladder`
--   chooses what to advertise, `Checker` is `UpdateChecker` over the row `release_check`.
-- - Systemd (crates/server/src/systemd.rs). `Paths` is `ReleasePaths`; `Retention` has
--   `releases_to_prune` and `rollback_target`; `Escape`, `Sorted` and `Unit` render what systemd reads.
-- - Deploy (crates/server/src/deploy/, health.rs, store/deployments.rs; crates/proto/src/lib.rs).
--   `World` is what a deployment reads and writes: the host (staging and release directories by
--   release id, the link `current`, unit, environment file, what runs), the rows and the events.
--   `Action` is a function on worlds that may fail and keeps what was done before; `Action.Triple` has
--   the rules to reason about it. `Rows` are the statements on the rows, `Lifecycle` the cancel check
--   and the transitions, `Artifact`, `Releases` and `Execution` the files of that name; `try_deploy`
--   is split at the comments of the source into `ship`, `configure`, `activate`, `verify` and
--   `commit_release`. `Verdict` holds what the outcome of `run_deploy` means.
--   `Recall` is the call Rollback of crates/server/src/api/deployments.rs with the task that it spawns.
-- - SelfUpgrade (crates/server/src/self_upgrade.rs). `Start` is `start` up to the spawn, `Run` is `run`
--   and the arm that records a failure, over the self directory of BootGuard; `Reconcile` is what a
--   process does at its start, with the sweep of old releases; `Boot` joins them with the guard.
-- - Routes (crates/proto/src/lib.rs): `validate_domain`, `validate_port` and `normalize_path`.
-- - Events (crates/server/src/events.rs). `Bus` with its calls; `Events.Log` runs any list of calls
--   and keeps, beside the bus, everything that a service has logged, which `Events.Laws` relates.
-- - Guardrail (crates/server/src/api/mod.rs, store/idempotency.rs, store/audit.rs): the guard of
--   latency-critical hosts, the audit entry, and the idempotency keys of retried calls.
-- - HostKeys (crates/server/src/ssh.rs, store/host_keys.rs, deploy/releases.rs, api/targets.rs,
--   api/build_hosts.rs). `Store` has the columns and statements, `Connect` a connection up to the
--   authentication and what is written back, `Api` the calls that accept or forget a key. A connection
--   takes the pinned key as its caller has read it, so that interleaved connections can be stated.
-- - Auth (crates/server/src/auth.rs, store/auth.rs): the check in front of a call, `Tokens`, and
--   `Sessions` with users and passwords.
-- - Api (crates/server/src/api/deployments.rs, deploy.rs, store/mod.rs). `Deployments` is the call that
--   starts a deployment, over Guardrail, and `Deployments.Kept` runs any calls behind one another;
--   `Pages` are the pages of a list and a client that walks them.
-- - Terminals (crates/server/src/store/terminals.rs): the table of grants of terminal sessions. `Keyed`
--   is about tables in which an id stands once, `Once` about sequences of calls,
--   `Granted` about a grant and its redemption.
-- - Ingress (crates/server/src/ingress/reconcile.rs): `reload` from the rendered configuration on, split at
--   the comments of the source into `stage`, `validated`, `install_config` and `apply`.
-- - Tests: runs at concrete inputs.
--
-- How the parts interact: a deployment takes its paths, unit and environment file from Systemd, its
-- retention from `releases_to_prune`, and its health verdict from `Deploy.Health`. The fault of an
-- operation, fine, early or late, is shared by the boot guard's files and the engine's steps.
--
-- Numbers are natural numbers. Where the source has a `u64` or a `u32`, the bound is written out: the
-- decimal parser refuses what does not fit, the counter of starts wraps at 2 ^ 32, the retries of a
-- health check saturate. Loops are recursions on a list or on the number of attempts left; only
-- the decimal printer runs on fuel, one digit each, and it is given one more than the number, which
-- the round trip with the parser shows to be enough. The client that walks a list makes a given number of
-- requests, and `Api.Pages.Walk` says how many are enough. The connections and calls of HostKeys, Auth and
-- Api take their queries to go through where the source only passes an error on.
--
-- Parameters, since their code is elsewhere: the outcome of each SSH command and statement
-- (`Env.fault`) and how the proxy fares with a
-- configuration, HTTP answers, builds, files read, SHA-256, password hashes, the format of public keys,
-- broadcast channels, fresh ids, the clock, `serde_json`. An SSH
-- command is modelled by its effect on the host; its quoting is not. `ln -sfn` and `mv -T` to the link
-- are one step, for a target whose `mv` knows `-T`; the second command that the shell tries where it does
-- not is left out. A restart that reports a failure has stopped the service, or it has come up and only
-- the answer was lost (`Env.comes_up`).
--
-- Not modelled: what is only logged or printed; the reload of the proxy behind a deployment; two
-- deployments of one service at a time; the rendering, the installation and the checks of ingress; the
-- other API handlers, the dashboard, the command line and the MCP server.
pub mod Api
pub mod Auth
pub mod BootGuard
pub mod Deploy
pub mod Events
pub mod Guardrail
pub mod HostKeys
pub mod Ingress
pub mod Prelude
pub mod Routes
pub mod SelfUpgrade
pub mod Systemd
pub mod Terminals
pub mod Tests
pub mod Text
pub mod Updates
