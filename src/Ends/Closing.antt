-- ===== src/Ends/Closing.antt =====
-- A server whose connection cannot be closed cleanly: the `finally` of `handle_client` in
-- server_handler.py, up to `main`.
use pclipsync.Base.{◌≡◌, ap, ◌∙◌, true, false, some, List}
use pclipsync.Exec.{Exn, Result, ok}
use pclipsync.X11.{Outside, Display}
use pclipsync.State.{ClipboardState}
use pclipsync.SyncLoop.{Outcome, stay, run_sync_loop}
use pclipsync.Startup.{System, Peer, session_of}
use pclipsync.Server.{
  handle_client, serve, run_server, run_server_with_cleanup, finally_cleanup, server_result,
  finish_client,
}
use pclipsync.Server.Laws.{Opens, start_server-free, server_result-closing}
use pclipsync.Cli.{OptionName, select_mode, configure_logging, run_mode, main}
use pclipsync.Ends.{logging, IsFree}

module _ (O : Outside) (p : Peer) (x : Exn) (c : p.closing ≡ some x)
    (u : p.shutdown_requested ≡ false) where
  serve-closing :
      (s : ClipboardState) (y : System)
      → serve O p s y ≡ (
        ok stay,
        record y { connection = (run_sync_loop O p.wakes (session_of s p)).1.state.display },
      )
  unfolding serve handle_client
  serve-closing s y =
      let (r, t) = run_sync_loop O p.wakes (session_of s p) in
      ap (λ (h : Result Outcome). (h, record y { connection = t.state.display }))
        (ap (λ v. server_result (finish_client v r) p.shutdown_requested) c
          ∙ ap (λ b. server_result (finish_client (some x) r) b) u
          ∙ server_result-closing r x)

  -- With options that select the server, an X11 connection on which the state can be created and a
  -- free socket: a server on whose connection closing raises, and that no signal asks for the end,
  -- goes on waiting, however the client's loop ends, with the socket file in place.
  pub server-closing :
      (opts : List OptionName) (y : System) {s : ClipboardState} {d : Display}
      → Opens O y s d
      → select_mode opts ≡ ok true
      → IsFree y
      → main O opts p y ≡ (
        ok stay,
        record (logging opts y) {
          connection = (run_sync_loop O p.wakes (session_of s p)).1.state.display;
          socket_file = true;
        },
      )
  unfolding main configure_logging run_mode run_server_with_cleanup run_server finally_cleanup
  server-closing opts y {s} {d} o mode free =
      let started =
        start_server-free O (logging opts y) {s = s} {d = d}
          (record { is_set = o.is_set; opened = o.opened; created = o.created })
          (λ there. (free.is_stale there, free.unlinks)) free.binds in
      rw (mode, started)
        (rw (serve-closing s (record (logging opts y) { connection = d; socket_file = true })))
