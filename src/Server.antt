-- ===== src/Server.antt =====
-- src/pclipsync/server.py, server_handler.py and server_socket.py: the socket file, the one client
-- and the end of the server.
pub mod Laws
use pclipsync.Base.{ℕ, Bool, true, false, ◌||◌, Option, none, some, List, [], ◌∷◌, if◌then◌else◌}
use pclipsync.Exec.{
  Exn, connection_refused, system_exit, is_protocol_error, is_connection_error, is_os_error, Result,
  ok, raise, Exec, pure, throw, modify, ◌>>=◌, ◌>>◌,
}
use pclipsync.X11.{Outside}
use pclipsync.State.{ClipboardState}
use pclipsync.Startup.{System, Os, Peer, start_x11, session_of}
use pclipsync.SyncLoop.{Session, Wake, Outcome, stay, leave, run_sync_loop}

-- `os.unlink(socket_path)`
unfoldable pub unlink : Os (Unit {0})
unlink y = elim y.unlinking [
  | none ↦ (ok tt, record y { socket_file = false })
  | some x ↦ (raise x, y)
]

-- The file exists: the socket is in use, or stale, or cannot be accessed.
unfoldable pub probe : Option Exn → Os (Unit {0})
unfolding unlink
probe none = throw (system_exit 1)
probe (some connection_refused) = unlink
probe (some x) = if is_os_error x then throw (system_exit 1) else throw x

unfoldable pub check_socket_state : Os (Unit {0})
unfolding probe
check_socket_state y = if y.socket_file then probe y.connecting y else (ok tt, y)

unfoldable pub ignore_os_error : Result (Unit {0}) × System → Result (Unit {0}) × System
ignore_os_error (ok u, y) = (ok u, y)
ignore_os_error (raise x, y) = if is_os_error x then (ok tt, y) else (raise x, y)

unfoldable pub cleanup_socket : Os (Unit {0})
unfolding ignore_os_error unlink
cleanup_socket y = ignore_os_error (unlink y)

-- What `handle_client` leaves: exceptions for the main task, the event that tells it of the end,
-- and an exception that escapes the handler.
pub record Handled : Type 0 where
  pub exception_holder : List Exn
  pub shutdown_event : Bool
  pub escaped : Option Exn

-- Protocol and connection errors are kept for the main task; closing may raise before the event is
-- set. A loop that still waits has not come to it.
unfoldable pub finish_client : Option Exn → Result Outcome → Handled
finish_client closing (ok stay) = record {
  exception_holder = [];
  shutdown_event = false;
  escaped = none;
}
finish_client none (ok leave) = record {
  exception_holder = [];
  shutdown_event = true;
  escaped = none;
}
finish_client (some y) (ok leave) = record {
  exception_holder = [];
  shutdown_event = false;
  escaped = some y;
}
finish_client none (raise x) =
    if is_protocol_error x || is_connection_error x
    then record { exception_holder = x ∷ []; shutdown_event = true; escaped = none }
    else record { exception_holder = []; shutdown_event = true; escaped = some x }
finish_client (some y) (raise x) =
    if is_protocol_error x || is_connection_error x
    then record { exception_holder = x ∷ []; shutdown_event = false; escaped = some y }
    else record { exception_holder = []; shutdown_event = false; escaped = some y }

unfoldable pub handle_client : Outside → Option Exn → List Wake → Session → Handled × Session
unfolding finish_client
handle_client O closing wakes s =
    let (r, t) = run_sync_loop O wakes s in (finish_client closing r, t)

-- The end of the server: the client's end or a signal wakes it, and it raises what the handler
-- kept. `stay` is a server that still waits.
unfoldable pub server_result : Handled → Bool → Result Outcome
server_result h shutdown_requested =
    if h.shutdown_event || shutdown_requested
    then elim h.exception_holder [ [] ↦ ok leave | x ∷ _ ↦ raise x ]
    else ok stay

-- `asyncio.start_unix_server`, which makes the file.
unfoldable pub bind : Os (Unit {0})
bind y = elim y.binding [ none ↦ (ok tt, record y { socket_file = true }) | some x ↦ (raise x, y) ]

-- `finally: cleanup_socket(socket)`: the first exception goes on, unless the clean-up raises.
unfoldable pub after_cleanup : Result Outcome → Result (Unit {0}) × System → Result Outcome × System
after_cleanup r (ok u, y) = (r, y)
after_cleanup r (raise x, y) = (raise x, y)

-- A server that still waits has not come to its clean-up.
unfoldable pub finally_cleanup : Result Outcome × System → Result Outcome × System
unfolding after_cleanup cleanup_socket
finally_cleanup (ok stay, y) = (ok stay, y)
finally_cleanup (ok leave, y) = after_cleanup (ok leave) (cleanup_socket y)
finally_cleanup (raise x, y) = after_cleanup (raise x) (cleanup_socket y)

module _ (O : Outside) where
  -- Starting up to the point where the socket listens.
  unfoldable pub start_server : Os ClipboardState
  unfolding bind
  start_server = do s ← start_x11 O; check_socket_state; bind; λ y. (ok s, y)

  -- The one client, and then the end.
  unfoldable pub serve : Peer → ClipboardState → Os Outcome
  unfolding handle_client server_result
  serve p s y =
      let (h, t) = handle_client O p.closing p.wakes (session_of s p) in
      (server_result h p.shutdown_requested, record y { connection = t.state.display })

  unfoldable pub run_server : Peer → Os Outcome
  unfolding start_server serve
  run_server p = do s ← start_server; serve p s

  unfoldable pub run_server_with_cleanup : Peer → Os Outcome
  unfolding run_server finally_cleanup
  run_server_with_cleanup p y = finally_cleanup (run_server p y)
