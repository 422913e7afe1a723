-- ===== src/Tests/Processes.antt =====
-- Whole processes at concrete values: main.py, server.py, server_socket.py, client.py.
use pclipsync.Base.{
  ◌≡◌, ◌≢◌, sym, ◌∙◌, refl, true, false, none, some, List, [], ◌∷◌, ◌++◌, arith, All,
}
use pclipsync.Exec.{connection_refused, connection_error, system_exit, ok, raise}
use pclipsync.Protocol.{closed, goodbye_message}
use pclipsync.State.{ClipboardState}
use pclipsync.X11.{Bytes, Display}
use pclipsync.Sync.{handle_incoming_content}
use pclipsync.Sync.Silent.{network}
use pclipsync.SyncLoop.{stay, leave, run_sync_loop}
use pclipsync.SyncLoop.Rounds.{IsMessage, incoming, messages, read_wake}
use pclipsync.Startup.{System, Peer, warning, create_state, session_of}
use pclipsync.Startup.Ready.{IsReady, create_state-IsReady, started}
use pclipsync.Server.{
  start_server, run_server, run_server_with_cleanup, handle_client, finish_client, server_result,
}
use pclipsync.Server.Laws.{Opens, run_server_with_cleanup-active}
use pclipsync.Cli.{server, client, socket, main, select_mode, given}
use pclipsync.Ends.{sends, IsFree, server-goodbye, server-eof, client-goodbye}
use pclipsync.Ends.Closing.{server-closing}
use pclipsync.Ends.WellFormed.{process-IsWellFormed}
use pclipsync.Incr.Cleanup.{IsWellFormed}
use pclipsync.Client.{run_client_connection}
use pclipsync.Ends.Wire.{Conversed, main-Conversed}
use pclipsync.Tests.Samples.{outside, accepts, display, idle_state, hello}

-- A socket file that nothing listens on any more.
abbrev stale : System
stale = record {
  display_set = true;
  opening = none;
  connecting = some connection_refused;
  unlinking = none;
  binding = none;
  socket_file = true;
  connection = display;
  log_level = warning;
}

-- A socket file that a server listens on.
abbrev active : System
active = record stale { connecting = none }

-- The connection after a start, and the state.
abbrev connection : Display
connection = record display { history = started outside 7 100 [] }

abbrev ready : ClipboardState
ready = record idle_state { display = connection }

created : create_state outside display ≡ (ok ready, connection)
unfolding create_state
created = refl

stale-Opens : Opens outside stale ready connection
stale-Opens = record { is_set = refl; opened = refl; created = created }

active-Opens : Opens outside active ready connection
active-Opens = record { is_set = refl; opened = refl; created = created }

create_state-IsReady_example : IsReady outside display ready
create_state-IsReady_example =
    create_state-IsReady outside display {s = ready} {d' = connection} created

-- A message, and then the goodbye.
abbrev talking : Peer
talking = record {
  reader = record { bytes = messages (hello ∷ []) goodbye_message; ending = closed };
  wakes = read_wake ∷ read_wake ∷ [];
  closing = none;
  shutdown_requested = false;
}

process-IsWellFormed_example :
    IsWellFormed (handle_client outside none talking.wakes (session_of ready talking)).1.state
    × IsWellFormed
        (run_client_connection outside none none talking.wakes (session_of ready talking)).1.state
unfolding pclipsync.Startup.start_x11 create_state pclipsync.Startup.validate_display
process-IsWellFormed_example =
    process-IsWellFormed outside accepts active talking {s = ready}
      {y' = record active { connection = connection }} refl refl

abbrev contents : List Bytes
contents = hello ∷ []

contents-IsMessage : All IsMessage contents
contents-IsMessage = ((λ e. cc, omega arith), tt)

abbrev handled : ClipboardState
handled = (incoming outside contents ready).1

incoming-contents : incoming outside contents ready ≡ (ok tt, handled)
unfolding incoming handle_incoming_content pclipsync.Sync.set_clipboard_content pclipsync.Sync.add
    pclipsync.Base.contains pclipsync.Wait.get_server_timestamp pclipsync.Wait.wait_loop
incoming-contents = refl

server_options : select_mode (socket ∷ server ∷ []) ≡ ok true
unfolding select_mode
server_options = refl

client_options : select_mode (socket ∷ client ∷ []) ≡ ok false
unfolding select_mode
client_options = refl

stale-IsFree : IsFree stale
stale-IsFree = record { is_stale = λ there. refl; unlinks = refl; binds = refl }

server-goodbye_example :
    main outside
      (socket ∷ server ∷ [])
      (sends contents (goodbye_message ++ []) closed [] none false)
      stale
    ≡ (ok leave, record stale { connection = handled.display; socket_file = false })
unfolding given
server-goodbye_example =
    server-goodbye outside (socket ∷ server ∷ []) contents [] stale {s = ready} {d = connection}
      {t = handled} stale-Opens contents-IsMessage [] closed server_options stale-IsFree
      incoming-contents

server-eof_example :
    main outside (socket ∷ server ∷ []) (sends contents [] closed [] none false) stale
    ≡ (raise (system_exit 1), record stale { connection = handled.display; socket_file = false })
unfolding given
server-eof_example =
    server-eof outside (socket ∷ server ∷ []) contents [] stale {s = ready} {d = connection}
      {t = handled} stale-Opens contents-IsMessage server_options stale-IsFree incoming-contents

client-goodbye_example :
    main outside
      (socket ∷ client ∷ [])
      (sends contents (goodbye_message ++ []) closed [] none false)
      active
    ≡ (ok leave, record active { connection = handled.display })
unfolding given pclipsync.HashState.clear
client-goodbye_example =
    client-goodbye outside (socket ∷ client ∷ []) contents [] active {s = ready} {d = connection}
      {t = handled} active-Opens contents-IsMessage [] closed client_options refl incoming-contents

-- A server that is stopped by a signal before its client sends.
abbrev stopped : Peer
stopped = record {
  reader = record { bytes = []; ending = closed };
  wakes = [];
  closing = none;
  shutdown_requested = true;
}

stopped_lem : (run_server outside stopped stale).0 ≡ ok leave
unfolding run_server pclipsync.Startup.start_x11 pclipsync.Server.check_socket_state
    pclipsync.SyncLoop.run_sync_loop
stopped_lem = refl

stops : (run_server outside stopped stale).0 ≢ ok stay
stops e = absurd (leave-stay (sym stopped_lem ∙ e))
  where
    leave-stay : ok leave ≡ ok stay → ⊥
    leave-stay h = cc

run_server_with_cleanup-active_example :
    run_server_with_cleanup outside stopped active
    ≡ (raise (system_exit 1), record active { connection = connection; socket_file = false })
run_server_with_cleanup-active_example =
    run_server_with_cleanup-active outside stopped active {s = ready} {d = connection} active-Opens
      refl refl refl

-- A client whose connection is reset.
abbrev reset : Peer
reset = record stopped { closing = some connection_error; shutdown_requested = false }

server-closing_example : main outside (socket ∷ server ∷ []) reset stale ≡ (
  ok stay,
  record stale {
    connection = (run_sync_loop outside [] (session_of ready reset)).1.state.display;
    socket_file = true;
  },
)
unfolding given
server-closing_example =
    server-closing outside reset connection_error refl refl (socket ∷ server ∷ []) stale {s = ready}
      {d = connection} stale-Opens server_options stale-IsFree

main-Conversed_example :
    Conversed (main outside (socket ∷ server ∷ []) stopped stale).1.connection.history
main-Conversed_example =
    main-Conversed outside (socket ∷ server ∷ []) stopped stale (unfold network in refl)
