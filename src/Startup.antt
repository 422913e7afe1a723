-- ===== src/Startup.antt =====
-- What client and server do first, src/pclipsync/clipboard.py, `register_xfixes_events` of
-- clipboard_events.py and the state that client.py and server.py build: the operating system, the
-- X11 connection and the one socket connection, as the process finds them.
pub mod Ready
use pclipsync.Base.{Bool, true, false, Option, none, some, List, [], ◌∷◌, if◌then◌else◌}
use pclipsync.Exec.{Exn, system_exit, is_exception, Result, ok, raise, Exec, ◌>>=◌, ◌>>◌}
use pclipsync.HashState.{fresh}
use pclipsync.Protocol.{Stream}
use pclipsync.X11.{
  Atom, WindowId, property_change, AtomName, clipboard_name, incr_name, Request, create_window,
  intern_atom, query_xfixes, select_selection_input, flush, Outside, Display,
}
use pclipsync.State.{ClipboardState}
use pclipsync.SyncLoop.{Session, Wake}

-- `logging.DEBUG` and `logging.WARNING`.
pub data Level : Type 0 where
  debug warning : Level

-- What the operating system answers, `none` where a call succeeds, whether the socket file is
-- there, and the X11 connection. `connecting` is what an attempt to connect to the socket gives.
pub record System : Type 0 where
  pub display_set : Bool
  pub opening : Option Exn
  pub connecting : Option Exn
  pub unlinking : Option Exn
  pub binding : Option Exn
  pub socket_file : Bool
  pub connection : Display
  pub log_level : Level

abbrev pub Os : Type 0 → Type 0
Os A = Exec System A

-- The connection to the other side: what it sends, the tasks that are done round after round, what
-- closing it raises, and whether a signal has asked for the end.
pub record Peer : Type 0 where
  pub reader : Stream
  pub wakes : List Wake
  pub closing : Option Exn
  pub shutdown_requested : Bool

abbrev pub Setup : Type 0 → Type 0
Setup A = Exec Display A

abbrev pub on_connection : {A : Type 0} → Setup A → Os A
on_connection m y = let (r, d) = m y.connection in (r, record y { connection = d })

-- `DISPLAY` is unset or empty, or opening the connection raises, or the connection is there.
unfoldable pub validate_display : Os (Unit {0})
validate_display y =
    if y.display_set
    then elim y.opening [
      | none ↦ (ok tt, y)
      | some x ↦ (raise (if is_exception x then system_exit 1 else x), y)
    ]
    else (raise (system_exit 1), y)

-- The connection once a request has been made on it.
abbrev pub requested : Request → Display → Display
requested r d = record d { history = r ∷ d.history }

unfoldable pub initial_state : Display → WindowId → Atom → Atom → ClipboardState
initial_state display window clipboard_atom incr_atom = record {
  display = display;
  window = window;
  hash_state = fresh;
  current_content = [];
  acquisition_time = none;
  deferred_events = [];
  x11_event = false;
  clipboard_atom = clipboard_atom;
  owned_selections = [];
  incr_atom = incr_atom;
  pending_incr_sends = [];
}

module _ (O : Outside) where
  abbrev pub ask : Request → Setup (Unit {0})
  ask r d = (O.perform d.history r, requested r d)

  -- `screen.root.create_window(0, 0, 1, 1, 0, …, event_mask=X.PropertyChangeMask)`
  unfoldable pub create_hidden_window : Setup WindowId
  create_hidden_window d = (O.new_window d.history, requested (create_window property_change) d)

  -- `display.intern_atom(name)`
  abbrev pub interned : AtomName → Setup Atom
  interned name d = (O.named_atom d.history name, requested (intern_atom name) d)

  unfoldable pub register_xfixes_events : WindowId → Atom → Setup (Unit {0})
  register_xfixes_events window clipboard_atom = do
    ask query_xfixes
    ask (select_selection_input window clipboard_atom)
    ask (select_selection_input window O.primary_atom)
    ask flush

  -- The state, once the window is there and both selections are watched.
  unfoldable pub create_state : Setup ClipboardState
  unfolding create_hidden_window register_xfixes_events initial_state
  create_state = do
    window ← create_hidden_window
    clipboard_atom ← interned clipboard_name
    register_xfixes_events window clipboard_atom
    incr_atom ← interned incr_name
    λ d. (ok (initial_state d window clipboard_atom incr_atom), d)

-- What client and server do first.
unfoldable pub start_x11 : Outside → Os ClipboardState
unfolding validate_display create_state
start_x11 O = do validate_display; on_connection (create_state O)

-- A connection with this state, before its loop.
abbrev pub session_of : ClipboardState → Peer → Session
session_of s p = record { state = s; reader = p.reader; watching = false }
