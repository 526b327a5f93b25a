-- ===== src/Lib.antt =====
-- DockFleet runs the services of a configuration file as Docker containers, checks their health and
-- restarts them. This library models its core and proves what the parts promise.
--
-- The parts, the files that model them, and the code:
--   Cli/Config, Cli/Config/Depends: the configuration and the validator of depends_on
--     (dockfleet/cli/config.py). The children of Depends compare its walk with that of the start
--     order.
--   Cli/Config/PortMapping: the parser of port mappings; Cli/Config/Memory: the regular expression of
--     memory limits; Cli/Config/Fields: the environment and the health check, all in the same file.
--   Cli/Background: restart and a detached up, which work on the services through Core/Fleet and on
--     the scheduler in the background through Health/Lifecycle (dockfleet/cli/main.py). What other
--     processes do in the meantime is a list of events.
--   Core/Exec: how methods run. `Exec A` takes the state of the process and of the database (`Node`)
--     and gives an outcome, a value or an exception, and the next state; `World` is what is outside:
--     the replies to commands, whether a port can be bound, whether a database session works, and
--     how long things take.
--   Core/Docker: the commands and flags (dockfleet/core/docker.py, dockfleet/core/docker_flags.py).
--   Core/Ports: host ports and the wait for them; Core/Order: the order of the start;
--   Core/Orchestrator: start, stop and restart of a service; Core/Fleet: up and down, which work on
--     all services (dockfleet/core/orchestrator.py).
--   Core/Listing: what is shown of the containers; Core/Instance: the orchestrator that the process
--     shares, both in the same file; Core/Monitor: the old monitor, in the same file;
--     Core/LogQueue, Core/Stream: the queue of a stream
--     of container logs, and the loop behind it with its attempts (dockfleet/core/logs.py).
--   Health/Models: the stored enumerations and the tables (dockfleet/health/models.py).
--   Health/Status: what checks and restarts write to a row (dockfleet/health/status.py).
--   Health/Logs: the log table, its queries and downloads (dockfleet/health/logs.py);
--   Health/Ingest: the polls that fill it (dockfleet/health/log_ingestor.py).
--   Health/Services: the rows of a configuration (dockfleet/health/services.py,
--     dockfleet/health/seed.py).
--   Health/Schedule, Health/Scheduler, Health/Poll: deadlines, one pass of checks, automatic
--     restarts with their limit and backoff, and the loop around the passes
--     (dockfleet/health/scheduler.py). The scheduler calls the orchestrator and the functions of
--     status.py; all of them share the rows of the database.
--   Health/Queries: what the dashboard reads (dockfleet/health/queries.py, dockfleet/health/metrics.py).
--   Health/Lock: the lock that lets one scheduler run (dockfleet/health/scheduler_lock.py), its
--     operations taken whole; a crash ends a process between them.
--   Health/Lifecycle: the start and stop of the scheduler in each process that contends for that lock
--     (dockfleet/health/scheduler.py).
--   Health/Checker: the three kinds of check, and the choice between them (dockfleet/health/checker.py,
--     dockfleet/health/scheduler.py).
--   Dashboard: the entries of the services (dockfleet/dashboard/services.py); Dashboard/Summary: the
--     two summaries; Dashboard/Actions: the restart and the stop of a service by hand, which call the
--     orchestrator and status.py (dockfleet/dashboard/routes.py).
--   Prelude: shared tests, lists, texts and maps. Examples: concrete values and tests.
--
-- A function of the code has the name of its definition here, without a leading underscore. A
-- dictionary is the list of its entries in order; a set is a list of its members. A session of the
-- database either commits or raises and then changes nothing.
--
-- Bounds: the recursive walks over dependencies get a depth of one more than the number of services,
-- since each call inside another visits one service more. The loop that waits for ports gets one turn
-- more than its interval fits into the timeout, since each turn but the last sleeps that long. The digits
-- of a number are as many as its value plus one, at most. Floats are scaled: times and backoff in
-- thousandths of a second, the backoff multiplier in thousandths; the delay is rounded down. A
-- download gets one page more than the table has rows, since each page but the last has a row. The
-- clocks `time.time`, `time.monotonic` and the time of the database are one clock.
--
-- Not modelled: printing and logging; the other commands of the command line, the pages of the
-- dashboard and its formats of time, the threads that read container logs; YAML and the validators
-- of numbers; Docker, sockets, HTTP, SQLite and JSON, which are the `World` or parameters. A
-- query is what SQL says of it: a filter of the rows, sorted; its `lower` and LIKE know ASCII letters.
mod Prelude
pub mod Cli
pub mod Core
pub mod Dashboard
pub mod Health
mod Examples
