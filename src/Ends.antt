-- ===== src/Ends.antt =====
-- How a process ends, from its options to its exit status: `main` of main.py with `run_server`,
-- `handle_client` and the socket file, and with `run_client` and `run_client_connection`.
pub mod Wire
pub mod Closing
pub mod WellFormed
use pclipsync.Base.{
  Bool, Option, ◌≡◌, ◌≢◌, true, false, none, some, List, [], ◌∷◌, ◌++◌, All, if◌then◌else◌, ap, ◌∙◌,
  refl,
}
use pclipsync.Exec.{
  Exn, connection_refused, system_exit, protocol_error, closed_in_length, Result, ok, raise, catch,
}
use pclipsync.Protocol.{Bytes, Ending, closed, goodbye_message}
use pclipsync.X11.{Outside, Display}
use pclipsync.HashState.{clear}
use pclipsync.State.{ClipboardState}
use pclipsync.SyncLoop.{Session, Wake, Outcome, stay, leave, remove_reader, run_sync_loop}
use pclipsync.SyncLoop.Rounds.{
  read_wake, read_wakes, messages, IsMessage, incoming, loop_goodbye, loop_eof,
}
use pclipsync.Startup.{System, Peer, session_of, debug, warning, validate_display, start_x11}
use pclipsync.Server.{
  finish_client, handle_client, server_result, serve, run_server, run_server_with_cleanup,
}
use pclipsync.Server.Laws.{Opens, start_server-free, finally_cleanup_lem}
use pclipsync.Client.{
  clear_hashes, client_errors, close_writer, connected, run_client_connection, run_client, connect,
}
use pclipsync.Cli.{
  OptionName, verbose, given, select_mode, configure_logging, mode_errors, run_mode, main,
}

-- Another side that sends messages and then some rest, each read in a round of its own, with what
-- closing the connection raises, if anything, and whether a signal asks for the end.
abbrev pub sends : List Bytes → Bytes → Ending → List Wake → Option Exn → Bool → Peer
sends cs rest ending wakes closing shutdown_requested = record {
  reader = record { bytes = messages cs rest; ending = ending };
  wakes = read_wakes cs ++ read_wake ∷ wakes;
  closing = closing;
  shutdown_requested = shutdown_requested;
}

abbrev pub logging : List OptionName → System → System
logging opts y = record y { log_level = if given verbose opts then debug else warning }

-- A socket that a server can listen on: no file is there, or a stale one, and it can be unlinked.
pub record IsFree (y : System) : Type 0 where
  pub is_stale : y.socket_file ≡ true → y.connecting ≡ some connection_refused
  pub unlinks : y.unlinking ≡ none
  pub binds : y.binding ≡ none

module _ (O : Outside) (opts : List OptionName) (p : Peer) (y : System) {s : ClipboardState}
    {d : Display} (o : Opens O y s d) where
  -- A server that can start ends as serving its client ends, and leaves no socket file.
  main-serve :
      (r : Result Outcome) (t : Display)
      → select_mode opts ≡ ok true
      → IsFree y
      → serve O p s (record (logging opts y) { connection = d; socket_file = true })
        ≡ (r, record (logging opts y) { connection = t; socket_file = true })
      → r ≢ ok stay
      → main O opts p y
        ≡ catch
            (λ z. (r, z))
            (mode_errors)
            (record (logging opts y) { connection = t; socket_file = false })
  unfolding main configure_logging run_mode run_server_with_cleanup run_server
  main-serve r t mode free served ended =
      rw
        (
          mode,
          start_server-free O (logging opts y)
              (record { is_set = o.is_set; opened = o.opened; created = o.created })
              (λ there. (free.is_stale there, free.unlinks)) free.binds,
        )
        (rw (
          served,
          finally_cleanup_lem r (record (logging opts y) { connection = t; socket_file = true })
              ended free.unlinks,
        ))

  -- A client that can open its connection ends as its connection ends.
  main-connected :
      (r : Result Outcome) (t : Session)
      → select_mode opts ≡ ok false
      → y.connecting ≡ none
      → run_client_connection O none p.closing p.wakes (session_of s p) ≡ (r, t)
      → main O opts p y
        ≡ catch
            (λ z. (r, z))
            (mode_errors)
            (record (logging opts y) { connection = t.state.display })
  unfolding main configure_logging run_mode run_client connect start_x11 validate_display
  main-connected r t mode c ran = simp (mode, o.is_set, o.opened, o.created, c, ran)

-- The state with no hashes, as a new connection of the client has it.
abbrev pub cleared : ClipboardState → ClipboardState
cleared s = record s { hash_state = clear s.hash_state }

-- The session in which a loop has begun, before anything is read.
abbrev begun : ClipboardState → Ending → Session
begun s ending = record {
  state = s;
  reader = record { bytes = []; ending = ending };
  watching = true;
}

module _ (O : Outside) (cs : List Bytes) (wakes : List Wake) (s : ClipboardState)
    {t : ClipboardState} (h : All IsMessage cs) where
  serve-goodbye :
      (rest : Bytes) (ending : Ending) (y : System)
      → incoming O cs s ≡ (ok tt, t)
      → serve O (sends cs (goodbye_message ++ rest) ending wakes none false) s y
        ≡ (ok leave, record y { connection = t.display })
  unfolding serve server_result handle_client finish_client run_sync_loop remove_reader
  serve-goodbye rest ending y e =
      rw (loop_goodbye O cs rest ending wakes (begun s ending) {t = t} h e)

  serve-eof :
      (y : System)
      → incoming O cs s ≡ (ok tt, t)
      → serve O (sends cs [] closed wakes none false) s y
        ≡ (raise (protocol_error closed_in_length), record y { connection = t.display })
  unfolding serve server_result handle_client finish_client run_sync_loop remove_reader
  serve-eof y e = rw (loop_eof O cs wakes (begun s closed) {t = t} h e)

  connection-goodbye :
      (rest : Bytes) (ending : Ending)
      → incoming O cs (cleared s) ≡ (ok tt, t)
      → let p = sends cs (goodbye_message ++ rest) ending wakes none false in
        run_client_connection O none none p.wakes (session_of s p) ≡ (
          ok leave,
          record { state = t; reader = record { bytes = rest; ending = ending }; watching = false },
        )
  unfolding run_client_connection connected close_writer client_errors run_sync_loop remove_reader
  connection-goodbye rest ending e =
      rw (loop_goodbye O cs rest ending wakes (begun (cleared s) ending) {t = t} h e)

  connection-eof :
      incoming O cs (cleared s) ≡ (ok tt, t)
      → let p = sends cs [] closed wakes none false in
        run_client_connection O none none p.wakes (session_of s p) ≡ (
          raise (system_exit 1),
          record { state = t; reader = record { bytes = []; ending = closed }; watching = false },
        )
  unfolding run_client_connection connected close_writer client_errors run_sync_loop remove_reader
  connection-eof e = rw (loop_eof O cs wakes (begun (cleared s) closed) {t = t} h e)

module _ (O : Outside) (opts : List OptionName) (cs : List Bytes) (wakes : List Wake) (y : System)
    {s : ClipboardState} {d : Display} {t : ClipboardState} (o : Opens O y s d)
    (h : All IsMessage cs) where
  -- With options that select the server, an X11 connection on which the state can be created and a
  -- free socket, where no signal asks for the end and closing the connection to the client raises
  -- nothing: a server whose client sends messages that are not empty and within the limit, whose
  -- handling raises nothing, and then the goodbye, each read alone, ends with no error, with
  -- exactly those messages handled, and with no socket file.
  pub server-goodbye :
      (rest : Bytes) (ending : Ending)
      → select_mode opts ≡ ok true
      → IsFree y
      → incoming O cs s ≡ (ok tt, t)
      → main O opts (sends cs (goodbye_message ++ rest) ending wakes none false) y
        ≡ (ok leave, record (logging opts y) { connection = t.display; socket_file = false })
  server-goodbye rest ending mode free e =
      main-serve O opts _ y o (ok leave) t.display mode free
        (serve-goodbye O cs wakes s {t = t} h rest ending _ e) (λ e. cc)

  -- With options that select the server, an X11 connection on which the state can be created and a
  -- free socket, where no signal asks for the end and closing the connection to the client raises
  -- nothing: a server whose client sends messages that are not empty and within the limit, whose
  -- handling raises nothing, and then closes the connection with no goodbye, each read alone, ends
  -- with status 1, with exactly those messages handled, and with no socket file.
  pub server-eof :
      select_mode opts ≡ ok true
      → IsFree y
      → incoming O cs s ≡ (ok tt, t)
      → main O opts (sends cs [] closed wakes none false) y ≡ (
        raise (system_exit 1),
        record (logging opts y) { connection = t.display; socket_file = false },
      )
  unfolding mode_errors
  server-eof mode free e =
      main-serve O opts _ y o (raise (protocol_error closed_in_length)) t.display mode free
        (serve-eof O cs wakes s {t = t} h _ e) (λ e. cc)

  -- With options that select the client, an X11 connection on which the state can be created and a
  -- server to connect to, where closing the connection raises nothing: a client whose server sends
  -- messages that are not empty and within the limit, whose handling raises nothing, and then the
  -- goodbye, each read alone, ends with no error and with exactly those messages handled.
  pub client-goodbye :
      (rest : Bytes) (ending : Ending)
      → select_mode opts ≡ ok false
      → y.connecting ≡ none
      → incoming O cs (cleared s) ≡ (ok tt, t)
      → main O opts (sends cs (goodbye_message ++ rest) ending wakes none false) y
        ≡ (ok leave, record (logging opts y) { connection = t.display })
  client-goodbye rest ending mode c e =
      main-connected O opts _ y o (ok leave) _ mode c
        (connection-goodbye O cs wakes s {t = t} h rest ending e)

  -- With options that select the client, an X11 connection on which the state can be created and a
  -- server to connect to, where closing the connection raises nothing: a client whose server sends
  -- messages that are not empty and within the limit, whose handling raises nothing, and then
  -- closes the connection with no goodbye, each read alone, ends with status 1 and with exactly
  -- those messages handled.
  pub client-eof :
      select_mode opts ≡ ok false
      → y.connecting ≡ none
      → incoming O cs (cleared s) ≡ (ok tt, t)
      → main O opts (sends cs [] closed wakes none false) y
        ≡ (raise (system_exit 1), record (logging opts y) { connection = t.display })
  unfolding mode_errors
  client-eof mode c e =
      main-connected O opts _ y o (raise (system_exit 1)) _ mode c
        (connection-eof O cs wakes s {t = t} h e)
