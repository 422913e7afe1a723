-- ===== src/Ends/WellFormed.antt =====
-- The transfers of a process from its start on: client.py and server.py up to the end of the
-- connection, in client_retry.py and server_handler.py.
use pclipsync.Base.{
  ◌≡◌, refl, sym, ap, ◌∙◌, subst, Option, none, some, List, [], arith, Bool-cases, inl, inr,
}
use pclipsync.Exec.{Exn, is_connection_error, catch, Result, ok, raise, >>=-eq-ok}
use pclipsync.X11.{Outside, Display}
use pclipsync.Selection.WellFormed.{same}
use pclipsync.State.Keeps.{Keeps, Keeps-if, Keeps-answer, Keeps-catch}
use pclipsync.State.{ClipboardState, Accepts}
use pclipsync.Base.Dict.{count_first}
use pclipsync.Incr.Subscribe.{subscribed}
use pclipsync.Incr.Cleanup.{IsWellFormed}
use pclipsync.Startup.{
  System, Peer, start_x11, validate_display, create_state, on_connection, session_of,
}
use pclipsync.Startup.Ready.{IsReady, started, create_state-IsReady}
use pclipsync.SyncLoop.{Session, Outcome, Wake, stay, leave, run_sync_loop}
use pclipsync.SyncLoop.WellFormed.{run_sync_loop-IsWellFormed}
use pclipsync.Server.{handle_client}
use pclipsync.Client.{
  client_errors, connect_to_server, connected, close_writer, clear_hashes, run_client_connection,
}

started-IsWellFormed :
    (O : Outside) (d : Display) (s : ClipboardState)
    → d.history ≡ []
    → IsReady O d s
    → IsWellFormed s
unfolding subscribed count_first
started-IsWellFormed O d s new q =
    let asked : s.display.history ≡ started O s.window s.clipboard_atom [] =
      q.asked ∙ ap (started O s.window s.clipboard_atom) new in
    record {
      nodup = rw q.sends tt;
      keyed = rw q.sends tt;
      tracked = record { tracks = λ w. rw (q.sends, asked) };
    }

module _ (O : Outside) where
  -- Checking the display leaves the connection as it is.
  connection-validate_display : (y : System) → (validate_display y).1.connection ≡ y.connection
  unfolding validate_display
  connection-validate_display y = ground arith

  start_x11-IsReady :
      (y : System) {s : ClipboardState} {y' : System}
      → start_x11 O y ≡ (ok s, y')
      → IsReady O y.connection s
  unfolding start_x11
  start_x11-IsReady y {s} {y'} h =
      let (u, z, valid, created) =
        >>=-eq-ok validate_display (λ _. on_connection (create_state O)) y h in
      let same : z.connection ≡ y.connection =
        sym (ap (λ (x : Result (Unit {0}) × System). x.1.connection) valid)
        ∙ connection-validate_display y in
      subst (λ d. IsReady O d s) same
        (create_state-IsReady O z.connection {s = s} {d' = (create_state O z.connection).1}
          (λ i. ((created i).0, (create_state O z.connection).1)))

module _ (O : Outside) (A : Accepts O) where
  closed-same :
      (closing : Option Exn) (r : Result Outcome × Session) → (close_writer closing r).1 ≡ r.1
  unfolding close_writer
  closed-same closing (ok stay, s) = refl
  closed-same none (ok leave, s) = refl
  closed-same (some x) (ok leave, s) = refl
  closed-same none (raise y, s) = refl
  closed-same (some x) (raise y, s) = refl

  abbrev StaysWellFormed : Session → Type 0
  StaysWellFormed s = IsWellFormed s.state

  errors-Keeps : (x : Exn) → Keeps StaysWellFormed {A = Outcome} (client_errors x)
  unfolding client_errors
  errors-Keeps x = search (Keeps-if, Keeps-answer)

  connected-IsWellFormed :
      (closing : Option Exn) (wakes : List Wake) (r : Result (Unit {0})) (s : Session)
      → IsWellFormed s.state
      → IsWellFormed (connected O closing wakes r s).1.state
  unfolding connected
  connected-IsWellFormed closing wakes (raise x) s wf = elim (Bool-cases (is_connection_error x)) [
    | inl lost ↦ rw lost wf
    | inr other ↦ rw other wf
  ]
  connected-IsWellFormed closing wakes (ok u) s wf =
      subst StaysWellFormed
        (sym (closed-same closing (catch (run_sync_loop O wakes) client_errors s)))
        ((Keeps-catch {P = StaysWellFormed} (run_sync_loop O wakes) client_errors
            (record { at = λ s. run_sync_loop-IsWellFormed O A wakes s }) errors-Keeps).at
          s wf)

  -- On a connection on which nothing was asked before, and which takes every request: whatever the
  -- operating system and the other side do, in whatever order, and however the connection ends,
  -- the transfers of a process whose start has succeeded are well formed when the handler of the
  -- server's client has run, and so when the client's connection has: no key twice, each transfer
  -- under its own window and property, and a window watched exactly while it has a transfer.
  pub process-IsWellFormed :
      (y : System) (p : Peer) {s : ClipboardState} {y' : System}
      → y.connection.history ≡ []
      → start_x11 O y ≡ (ok s, y')
      → IsWellFormed (handle_client O p.closing p.wakes (session_of s p)).1.state
        × IsWellFormed
            (run_client_connection O y.connecting p.closing p.wakes (session_of s p)).1.state
  unfolding handle_client run_client_connection
  process-IsWellFormed y p {s} new start =
      let wf = started-IsWellFormed O y.connection s new (start_x11-IsReady O y start) in
      (
        run_sync_loop-IsWellFormed O A p.wakes (session_of s p) wf,
        connected-IsWellFormed p.closing p.wakes (connect_to_server y.connecting)
            (clear_hashes (session_of s p))
            (same s (clear_hashes (session_of s p)).state refl refl wf),
      )
