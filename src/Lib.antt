-- ===== src/Lib.antt =====
-- A verification library for uxon, which starts coding agents in tmux sessions on one host or several,
-- lists, attaches to and kills these sessions, and shows them in a terminal interface.
--
-- Parts and files:
--   Session   src/uxon/domain/session.py: the captured identity of a session, that a kill must match, and its name.
--             `SessionIdentity`, `validate`, `to_json` and `from_json` have the source's names.
--             Session/Json is what the code sees of the json library. Session/Names has the names of
--             sessions; the loop of `allocate_session_name` runs on fuel, and ends with one round more than
--             there are sessions.
--   Cli       src/uxon/cli/parsing.py and src/uxon/domain/args.py: from argv to `ParsedArgs`. The loops
--             over the tokens are one function, `walk`, on a `Grammar` for each parser. Cli/Correlation
--             is the part of src/uxon/infra/audit.py that takes the correlation id out of argv, and
--             Cli/Peer the command lines that src/uxon/app/kill.py and src/uxon/app/attach.py run on
--             another host, which that host parses with Cli.
--   Breaker   src/uxon/domain/host_breaker.py: when a host that fails is tried again.
--   Fetch     src/uxon/tui/workers.py: the attempts to fetch from one remote host. `Source` is the state
--             that the coordinator keeps for it, with the threads of its attempts and the messages on
--             their way. It uses Breaker: `in_flight` of the breaker is the gate of a source.
--             Fetch/Events has every interleaving of the event loop and the threads as a list of events.
--   Slot      src/uxon/tui/slot_state.py: what the interface knows of a source, from the results.
--   Render    src/uxon/tui/render_scheduler.py: when the interface is drawn. A timer is the time at which
--             it is due; Render/Pending has every sequence of requests and timers.
--             `drawn`, which the source does not have, is the list of the sets that were drawn.
--   Launch    src/uxon/infra/launch_records.py: the files that tie a tmux session to its launch. `Store`
--             is the directory with the components of its path and its files; an operation takes the
--             store and gives an answer and the store it leaves. `exits` is `fail`, `raises` an exception.
--             Whether `unlink` of a file raises, whether a collection can list the directory and replace its
--             cursor, and whether a record is younger than its retention (`age`, for any timestamp) are
--             parameters.
--   Kill      src/uxon/app/kill.py, with what it uses of src/uxon/infra/tmux.py, src/uxon/domain/runtime.py
--             and src/uxon/infra/runtime.py: how a session is removed, here and on another host.
--             Kill/World has what leaves the program: an operation takes the list of all calls so far and
--             the store of records, and an answer from outside may depend on all calls before it. Kill/
--             Target asks tmux, Kill/Teardown stops the workload, Kill/Finish uses Launch to remove the
--             record, Kill/Expected, Kill/Snapshot, Kill/Remote and Kill/Command are the functions
--             `kill_expected`, `kill_snapshot`, `remote_kill_expected`, `do_kill` and `do_kill_all`.
--   Dashboard src/uxon/tui/dashboard/order.py: where the rows of the dashboard stand. A row is of any type,
--             with a key and an equality; `place` answers `none` for the ValueError of `index`.
--             Dashboard/Buckets is the grouping by host of src/uxon/tui/dashboard/buckets.py.
--   Prelude   what the other modules share.
--   Examples  the theorems and the code at concrete inputs.
--
-- Conventions: texts are compared as wholes and walked as code points. `fail(msg, code)` ends the
-- process, so it is a result `err`, in Launch `exits`, in Kill `fails`. Every loop of the source runs over a list that
-- is given before it starts, and is recursion on that list, so no fuel is needed.
--
-- Outside the model: Python's floats (Breaker/Float has their operations and the laws that are used),
-- the clock and the random source, the json, hashlib, shlex and pathlib functions, which are
-- parameters, and what another process does to a directory between two calls, except in Kill, where
-- it is a parameter. What is printed for the user is left out of Kill. The clock of Launch is in
-- whole seconds. Terminal widgets, tmux, git and ssh are not modelled, since the program only calls
-- them.
pub mod Prelude
pub mod Session
pub mod Cli
pub mod Breaker
pub mod Fetch
pub mod Slot
pub mod Render
pub mod Launch
pub mod Kill
pub mod Dashboard
pub mod Examples
