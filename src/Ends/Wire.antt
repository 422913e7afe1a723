-- ===== src/Ends/Wire.antt =====
-- What a whole process writes to the socket, from the options of main.py to its end.
use pclipsync.Base.{
  ◌≡◌, refl, sym, subst, Option, ap, ◌∙◌, ◌⊎◌, inl, inr, Bool, true, false, List, [], ◌++◌, All,
  arith, if◌then◌else◌,
}
use pclipsync.Exec.{Exn, Result, ok, raise, continue, recover}
use pclipsync.Protocol.{goodbye_message}
use pclipsync.X11.{Bytes, Request, Outside, Display}
use pclipsync.State.{ClipboardState}
use pclipsync.Sync.Silent.{network}
use pclipsync.SyncLoop.{Session, Wake, Outcome, run_sync_loop}
use pclipsync.SyncLoop.Rounds.{messages, IsMessage}
use pclipsync.SyncLoop.Conversation.{written}
use pclipsync.SyncLoop.Conversation.Runs.{run_sync_loop-IsConversation}
use pclipsync.Startup.{
  debug, warning, System, Os, Peer, session_of, start_x11, validate_display, create_state,
}
use pclipsync.Startup.Ready.{create_state-IsReady}
use pclipsync.Server.{
  start_server, check_socket_state, probe, unlink, bind, handle_client, serve, run_server,
  finally_cleanup, after_cleanup, cleanup_socket, ignore_os_error, run_server_with_cleanup,
}
use pclipsync.Client.{
  clear_hashes, client_errors, close_writer, connect_to_server, connected, run_client_connection,
  run_client, connect,
}
use pclipsync.Cli.{
  OptionName, verbose, given, select_mode, configure_logging, mode_errors, run_mode, main,
}

-- Messages were written, and perhaps a goodbye behind them.
pub record Conversed (h : List Request) : Type 0 where
  pub contents : List Bytes
  pub rest : Bytes
  pub each : All IsMessage contents
  pub wrote : written (network h) ≡ messages contents rest
  pub ends : (rest ≡ []) ⊎ (rest ≡ goodbye_message)

abbrev IsFresh : List Request → Type 0
IsFresh h = network h ≡ []

nothing_written : (h : List Request) → IsFresh h → Conversed h
unfolding written
nothing_written h e = record {
  contents = [];
  rest = [];
  each = tt;
  wrote = ap written e;
  ends = inl refl;
}

network-create_state :
    (O : Outside) (d : Display) → network (create_state O d).1.history ≡ network d.history
unfolding create_state network
network-create_state O d = ground arith

network-started :
    (O : Outside) (d : Display) (s : ClipboardState)
    → (create_state O d).0 ≡ ok s
    → network s.display.history ≡ network d.history
unfolding network
network-started O d s h =
    ap network
      (create_state-IsReady O d {s = s} {d' = (create_state O d).1}
        (λ i. (h i, (create_state O d).1))).asked

module _ (O : Outside) where
  run-Conversed :
      (wakes : List Wake) (s : Session)
      → IsFresh s.state.display.history
      → Conversed (run_sync_loop O wakes s).1.state.display.history
  unfolding written
  run-Conversed wakes s e =
      let p = run_sync_loop-IsConversation O wakes s in
      record {
        contents = p.contents;
        rest = p.rest;
        each = p.each;
        wrote = p.wrote ∙ ap (λ n. written n ++ messages p.contents p.rest) e;
        ends = elim p.ended [ inl nothing ↦ inl nothing | inr (goodbye, over) ↦ inr goodbye ];
      }

  serve-Conversed :
      (p : Peer) (s : ClipboardState) (y : System)
      → IsFresh s.display.history
      → Conversed (serve O p s y).1.connection.history
  unfolding serve handle_client
  serve-Conversed p s y e = run-Conversed p.wakes (session_of s p) e

  -- What a start leaves: nothing is written yet.
  record IsStarted (r : Result ClipboardState × System) : Type 0 where
    unsent : IsFresh r.1.connection.history
    ready : (s : ClipboardState) → r.0 ≡ ok s → IsFresh s.display.history

  start_x11-IsStarted : (y : System) → IsFresh y.connection.history → IsStarted (start_x11 O y)
  unfolding start_x11 validate_display
  start_x11-IsStarted y e = record {
    unsent = ground (arith, network-create_state O y.connection);
    ready = λ s h. ground (arith, network-started O y.connection s);
  }

  start_server-IsStarted :
      (y : System) → IsFresh y.connection.history → IsStarted (start_server O y)
  unfolding start_server start_x11 validate_display check_socket_state probe unlink bind
  start_server-IsStarted y e = record {
    unsent = ground (arith, network-create_state O y.connection);
    ready = λ s h. ground (arith, network-started O y.connection s);
  }

  after_start :
      (m : ClipboardState → Os Outcome)
      → ((s : ClipboardState) (y : System)
          → IsFresh s.display.history
          → Conversed (m s y).1.connection.history)
      → (r : Result ClipboardState) (z : System) → IsStarted (r, z)
      → Conversed (continue r m z).1.connection.history
  after_start m h (ok s) z i = h s z (i.ready s refl)
  after_start m h (raise x) z i = nothing_written z.connection.history i.unsent

  connection-finally_cleanup :
      (r : Result Outcome) (z : System)
      → (finally_cleanup (r, z)).1.connection.history ≡ z.connection.history
  unfolding finally_cleanup after_cleanup cleanup_socket ignore_os_error unlink
  connection-finally_cleanup r z = ground arith

  server-Conversed :
      (p : Peer) (y : System)
      → IsFresh y.connection.history
      → Conversed (run_server_with_cleanup O p y).1.connection.history
  unfolding run_server_with_cleanup run_server
  server-Conversed p y e =
      let (r, z) = run_server O p y in
      subst Conversed (sym (connection-finally_cleanup r z))
        (after_start (serve O p) (serve-Conversed p) _ _ (start_server-IsStarted y e))

  closed_writer-same :
      (closing : Option Exn) (r : Result Outcome) (t : Session)
      → (close_writer closing (recover client_errors r t)).1 ≡ t
  unfolding close_writer client_errors
  closed_writer-same closing r t = ground arith

  not_connected :
      (b : Bool) (x y : Result Outcome) (s : Session)
      → IsFresh s.state.display.history
      → Conversed
          (if◌then◌else◌ {A = Result Outcome × Session} b (x, s) (y, s)).1.state.display.history
  not_connected true x y s e = nothing_written s.state.display.history e
  not_connected false x y s e = nothing_written s.state.display.history e

  connected-Conversed :
      (closing : Option Exn) (wakes : List Wake) (r : Result (Unit {0})) (s : Session)
      → IsFresh s.state.display.history
      → Conversed (connected O closing wakes r s).1.state.display.history
  unfolding connected
  connected-Conversed closing wakes (ok tt) s e =
      let (r, t) = run_sync_loop O wakes s in
      subst (λ (u : Session). Conversed u.state.display.history)
        (sym (closed_writer-same closing r t)) (run-Conversed wakes s e)
  connected-Conversed closing wakes (raise x) s e = not_connected _ _ _ s e

  connect-Conversed :
      (p : Peer) (s : ClipboardState) (y : System)
      → IsFresh s.display.history
      → Conversed (connect O p s y).1.connection.history
  unfolding connect run_client_connection
  connect-Conversed p s y e =
      connected-Conversed p.closing p.wakes (connect_to_server y.connecting)
        (clear_hashes (session_of s p)) e

  client-Conversed :
      (p : Peer) (y : System)
      → IsFresh y.connection.history
      → Conversed (run_client O p y).1.connection.history
  unfolding run_client
  client-Conversed p y e =
      after_start (connect O p) (connect-Conversed p) _ _ (start_x11-IsStarted y e)

  caught :
      (r : Result Outcome) (z : System)
      → (recover mode_errors r z).1.connection.history ≡ z.connection.history
  unfolding mode_errors
  caught r z = ground arith

  mode-Conversed :
      (is_server : Bool) (p : Peer) (y : System)
      → IsFresh y.connection.history
      → Conversed (run_mode O is_server p y).1.connection.history
  unfolding run_mode mode_errors
  mode-Conversed true p y e = subst Conversed (sym (caught _ _)) (server-Conversed p y e)
  mode-Conversed false p y e = subst Conversed (sym (caught _ _)) (client-Conversed p y e)

  then_mode :
      (opts : List OptionName) (p : Peer) (r : Result Bool) (y : System)
      → IsFresh y.connection.history
      → Conversed
          (continue r
            (λ is_server z.
              run_mode O is_server p
                (record z { log_level = if given verbose opts then debug else warning }))
            y).1.connection.history
  then_mode opts p (ok is_server) y e = mode-Conversed is_server p _ e
  then_mode opts p (raise x) y e = nothing_written y.connection.history e

-- Whatever the options, the operating system, the X server, the other applications and the remote
-- side do, and however it ends: on a new connection, a process writes to the socket only encoded
-- messages that are not empty and within the limit, and behind them at most one goodbye.
pub main-Conversed :
    (O : Outside) (opts : List OptionName) (p : Peer) (y : System)
    → network y.connection.history ≡ []
    → Conversed (main O opts p y).1.connection.history
unfolding main configure_logging
main-Conversed O opts p y e = then_mode O opts p (select_mode opts) y e
