-- ===== src/Lib.antt =====
-- pclipsync keeps the clipboards of two machines in step: a server and a client, connected by a
-- Unix socket, each watch CLIPBOARD and PRIMARY of their X server, send what changes as netstrings,
-- and take the selections for what arrives.
--
-- The parts, with their files under src/pclipsync/:
--   * Protocol: protocol.py, the netstrings and the goodbye message. `read_netstring` works on a
--     stream of bytes that ends closed or broken.
--   * HashState: hash_state.py and hashing.py, the hashes that stop duplicates and echoes.
--   * X11: what the program sees of python-xlib and of the socket. `Outside` answers each request
--     from all requests before it, in any way and with any exception; a script of polls gives the
--     events and the clocks. `Exec` is the monad of state and exceptions.
--   * State: sync_state.py and clipboard_selection_incr_state.py.
--   * Incr: the clipboard_selection_incr modules and clipboard_selection_refuse.py, sending by the
--     INCR protocol.
--   * Selection: clipboard_selection_request.py, its helpers and clipboard_selection_process.py.
--   * Wait: selection_utils.py.
--   * ClipboardIo: clipboard_io.py, reading the clipboard of another application.
--   * Sync: sync_handlers.py and `set_clipboard_content` of clipboard_events.py.
--   * SyncLoop: sync_loop_inner.py and sync_loop.py. A schedule says which tasks are done in each
--     round, so every interleaving of X11 events, messages and a shutdown is a run.
--     SyncLoop.Conversation is what a run writes, and SyncLoop.Inbox the loop over a list of contents
--     in place of a stream of bytes.
--   * Startup: clipboard.py, `register_xfixes_events` of clipboard_events.py, and what client.py and
--     server.py do first. `System` is the operating system with the X11 connection, `Peer` the one
--     connection to the other side.
--   * Server, Client, Cli: server.py, server_handler.py, server_socket.py, client.py,
--     client_retry.py, main.py, main_options.py and main_logging.py, up to the exit status.
--   * Delivery: both sides together, from one side's run to what the other side handles.
--   * Ends: how a process ends, from its options to its exit status, and what it writes.
--   * Tests: runs at concrete values.
--
-- A handler is an action on `ClipboardState`, which holds the requests made so far. The loop
-- works on a `Session`, the state with the stream of the remote side; server and client, actions
-- on a `System`, run the loop and turn its end into an exit status. Python objects that are
-- shared and mutated (a transfer in the dict, the list of deferred events) are fields of the one
-- state, which is passed on.
--
-- Loops over bytes, events, keys and rounds are structural. The loop over received chunks takes
-- one round more than there are polls as fuel, and every round but the last takes an event off the
-- polls, so the fuel is enough. A schedule or a script of polls that is used up leaves the loop
-- waiting. Times are milliseconds, numbers have no bound, as in Python, and the safety margin of
-- 0.9 is 9/10. The clocks are those of the last look at the queue of events: no time passes between
-- two looks, where the source reads a clock at every call.
--
-- Not modelled: what is logged and printed, python-xlib, asyncio, click and hashlib, which are
-- parameters or answers of the outside, a second client of the server, signal handlers, which only
-- set the event that the shutdown task waits for, client_constants.py, which nothing uses, and the
-- modules that only pass names on. The calls of intern_atom for fixed names other than CLIPBOARD and
-- INCR (clipboard_io.py, selection_utils.py and clipboard_selection_request.py) are constants of the
-- outside, which neither raise nor stand among the requests.
pub mod Base
pub mod Exec
pub mod Protocol
pub mod HashState
pub mod X11
pub mod State
pub mod Incr
pub mod Wait
pub mod Selection
pub mod ClipboardIo
pub mod Sync
pub mod SyncLoop
pub mod Startup
pub mod Client
pub mod Server
pub mod Cli
pub mod Ends
pub mod Delivery
pub mod Tests
