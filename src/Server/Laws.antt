-- ===== src/Server/Laws.antt =====
-- The socket file in server_socket.py, server.py and main.py: what the start does with a file that
-- is there, what the clean-up leaves, and what the end of the client leaves.
use pclipsync.Base.{◌≡◌, ◌≢◌, ◌∙◌, refl, false, true, none, some, arith}
use pclipsync.Exec.{Exn, connection_refused, system_exit, Result, ok, raise}
use pclipsync.X11.{Outside, Display}
use pclipsync.State.{ClipboardState}
use pclipsync.SyncLoop.{Outcome, stay, leave}
use pclipsync.Startup.{System, Peer, validate_display, create_state, start_x11}
use pclipsync.Server.{
  check_socket_state, start_server, run_server, run_server_with_cleanup, cleanup_socket, unlink,
  probe, ignore_os_error, after_cleanup, finally_cleanup, bind, serve, server_result, finish_client,
}

-- An X11 connection that opens, and on which the state can be created.
pub record Opens (O : Outside) (y : System) (s : ClipboardState) (d : Display) : Type 0 where
  pub is_set : y.display_set ≡ true
  pub opened : y.opening ≡ none
  pub created : create_state O y.connection ≡ (ok s, d)

module _ (O : Outside) (y : System) {s : ClipboardState} {d : Display} (o : Opens O y s d) where
  -- With an X11 connection on which the state can be created and a socket that can be bound, a
  -- start succeeds where no socket file is there, or a stale one that can be removed, and leaves
  -- the file in place.
  pub start_server-free :
      (y.socket_file ≡ true → (y.connecting ≡ some connection_refused) × (y.unlinking ≡ none))
      → y.binding ≡ none
      → start_server O y ≡ (ok s, record y { connection = d; socket_file = true })
  unfolding start_server start_x11 check_socket_state probe unlink validate_display bind
  start_server-free f b = ground (arith, o.is_set, o.opened, o.created)

  -- A start never removes a file that an active server listens on: it ends with status 1.
  start_server-active :
      y.socket_file ≡ true
      → y.connecting ≡ none
      → start_server O y ≡ (raise (system_exit 1), record y { connection = d })
  unfolding start_server start_x11 check_socket_state validate_display
  start_server-active f c = ground (arith, o.is_set, o.opened, o.created)

cleanup_socket_lem :
    (y : System) → y.unlinking ≡ none → cleanup_socket y ≡ (ok tt, record y { socket_file = false })
unfolding cleanup_socket unlink ignore_os_error
cleanup_socket_lem y u = ground arith

module _ (O : Outside) (p : Peer) (y : System) where
  run_server-unlinking : (run_server O p y).1.unlinking ≡ y.unlinking
  unfolding run_server start_server start_x11 check_socket_state probe unlink validate_display bind
      serve
  run_server-unlinking = ground arith

pub finally_cleanup_lem :
    (r : Result Outcome) (z : System)
    → r ≢ ok stay
    → z.unlinking ≡ none
    → finally_cleanup (r, z) ≡ (r, record z { socket_file = false })
unfolding finally_cleanup after_cleanup
finally_cleanup_lem (ok stay) z ended u = absurd (ended refl)
finally_cleanup_lem (ok leave) z ended u = rw (cleanup_socket_lem z u)
finally_cleanup_lem (raise x) z ended u = rw (cleanup_socket_lem z u)

-- If unlinking works, a run of the server that ends keeps its result and leaves no socket file.
pub run_server_with_cleanup_lem :
    (O : Outside) (p : Peer) (y : System)
    → y.unlinking ≡ none
    → (run_server O p y).0 ≢ ok stay
    → run_server_with_cleanup O p y
      ≡ (let (r, z) = run_server O p y in (r, record z { socket_file = false }))
unfolding run_server_with_cleanup
run_server_with_cleanup_lem O p y u ended =
    finally_cleanup_lem (run_server O p y).0 (run_server O p y).1 ended
      (run_server-unlinking O p y ∙ u)

-- A server that has an X11 connection on which the state can be created and finds an active server
-- on its socket ends with status 1, and its clean-up, if unlinking works, removes the socket file
-- of the active one.
pub run_server_with_cleanup-active :
    (O : Outside) (p : Peer) (y : System) {s : ClipboardState} {d : Display}
    → Opens O y s d
    → y.socket_file ≡ true
    → y.connecting ≡ none
    → y.unlinking ≡ none
    → run_server_with_cleanup O p y
      ≡ (raise (system_exit 1), record y { connection = d; socket_file = false })
unfolding run_server_with_cleanup run_server
run_server_with_cleanup-active O p y {s} {d} o f c u =
    rw (start_server-active O y o f c)
      (finally_cleanup_lem (raise (system_exit 1)) (record y { connection = d }) (λ e. cc) u)

-- If closing the connection raises, then the server goes on waiting, however the client's loop
-- ended, unless a signal has asked for the end.
pub server_result-closing :
    (r : Result Outcome) (x : Exn) → server_result (finish_client (some x) r) false ≡ ok stay
unfolding server_result finish_client
server_result-closing r x = ground arith
