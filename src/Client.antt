-- ===== src/Client.antt =====
-- src/pclipsync/client.py and client_retry.py: one connection to the server, and how it ends.
use pclipsync.Base.{◌||◌, Option, none, some, List, if◌then◌else◌}
use pclipsync.Exec.{
  Exn, connection_error, system_exit, is_protocol_error, is_connection_error, is_os_error, Result,
  ok, raise, Exec, throw, catch, ◌>>=◌,
}
use pclipsync.HashState.{clear}
use pclipsync.X11.{Outside}
use pclipsync.State.{ClipboardState}
use pclipsync.Startup.{Os, Peer, start_x11, session_of}
use pclipsync.SyncLoop.{Session, Wake, Outcome, stay, leave, run_sync_loop}

-- Protocol and connection errors are logged and end the process with status 1.
unfoldable pub client_errors : Exn → Exec Session Outcome
client_errors x =
    if is_protocol_error x || is_connection_error x then throw (system_exit 1) else throw x

-- `finally: writer.close(); await writer.wait_closed()`, which may raise in turn; a loop that still
-- waits has not come to it.
unfoldable pub close_writer : Option Exn → Result Outcome × Session → Result Outcome × Session
close_writer closing (ok stay, s) = (ok stay, s)
close_writer (some x) (ok leave, s) = (raise x, s)
close_writer (some x) (raise y, s) = (raise x, s)
close_writer none r = r

abbrev pub clear_hashes : Session → Session
clear_hashes s = record s { state = record s.state { hash_state = clear s.state.hash_state } }

-- Every OSError becomes a ConnectionError.
unfoldable pub connect_to_server : Option Exn → Result (Unit {0})
connect_to_server none = ok tt
connect_to_server (some x) = raise (if is_os_error x then connection_error else x)

module _ (O : Outside) where
  unfoldable pub connected : Option Exn → List Wake → Result (Unit {0}) → Exec Session Outcome
  unfolding client_errors close_writer
  connected closing wakes (raise x) s =
      if is_connection_error x then (raise (system_exit 1), s) else (raise x, s)
  connected closing wakes (ok _) s =
      close_writer closing (catch (run_sync_loop O wakes) client_errors s)

  -- `connecting` and `closing` are the errors, if any, of opening and closing the connection.
  unfoldable pub run_client_connection : Option Exn → Option Exn → List Wake → Exec Session Outcome
  unfolding connect_to_server connected
  run_client_connection connecting closing wakes s =
      connected closing wakes (connect_to_server connecting) (clear_hashes s)

  unfoldable pub connect : Peer → ClipboardState → Os Outcome
  unfolding run_client_connection
  connect p s y =
      let (r, t) = run_client_connection y.connecting p.closing p.wakes (session_of s p) in
      (r, record y { connection = t.state.display })

  -- Starting up, and then the one connection.
  unfoldable pub run_client : Peer → Os Outcome
  unfolding connect
  run_client p = do s ← start_x11 O; connect p s
