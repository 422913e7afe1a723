-- ===== src/Startup/Ready.antt =====
-- The state that clipboard.py, clipboard_events.py, client.py and server.py start with.
use pclipsync.Base.{◌≡◌, List, [], ◌∷◌, arith}
use pclipsync.Exec.{ok}
use pclipsync.HashState.{fresh}
use pclipsync.X11.{
  Atom, WindowId, property_change, clipboard_name, incr_name, Request, create_window, intern_atom,
  query_xfixes, select_selection_input, flush, Outside, Display,
}
use pclipsync.State.{ClipboardState}
use pclipsync.Startup.{create_state}

-- What a start asks, the last request first: the window, both atoms, and to be told of the owners of
-- both selections.
abbrev pub started : Outside → WindowId → Atom → List Request → List Request
started O window clipboard_atom h =
    intern_atom incr_name
    ∷ flush
    ∷ select_selection_input window O.primary_atom
    ∷ select_selection_input window clipboard_atom
    ∷ query_xfixes
    ∷ intern_atom clipboard_name
    ∷ create_window property_change
    ∷ h

-- A state that is ready for a connection: it holds the connection, owns nothing, knows no hash, and
-- both selections are watched for its window.
pub record IsReady (O : Outside) (d : Display) (s : ClipboardState) : Type 0 where
  pub asked : s.display.history ≡ started O s.window s.clipboard_atom d.history
  pub polls : s.display.polls ≡ d.polls
  pub owns : s.owned_selections ≡ []
  pub hashes : s.hash_state ≡ fresh
  pub sends : s.pending_incr_sends ≡ []
  pub defers : s.deferred_events ≡ []

-- Whatever the X server answers, a start that succeeds has asked for a window with property
-- changes and to be told of the owners of CLIPBOARD and PRIMARY on that window, and gives a state
-- on that connection that owns nothing, knows no hash, sends nothing and defers nothing.
pub create_state-IsReady :
    (O : Outside) (d : Display) {s : ClipboardState} {d' : Display}
    → create_state O d ≡ (ok s, d')
    → IsReady O d s
unfolding create_state
create_state-IsReady O d {s} {d'} h = ground arith
