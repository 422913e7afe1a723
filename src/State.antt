-- ===== src/State.antt =====
-- src/pclipsync/sync_state.py and clipboard_selection_incr_state.py: the state of one side, which
-- holds the display connection and the INCR transfers in progress, and the calls that it makes.
pub mod Keeps
use pclipsync.Base.{ℕ, ◌≡◌, Bool, true, false, Option, none, some, List, [], ◌∷◌}
use pclipsync.Base.Dict.{Dict}
use pclipsync.Exec.{Exn, Result, ok, raise, Exec}
use pclipsync.HashState.{HashState}
use pclipsync.X11.{
  Bytes, Atom, WindowId, Event, Request, Outside, Poll, Display, get_selection_owner,
  get_full_property, Property,
}

-- `offset` and `completion_sent` are mutated through the dict that holds the object.
pub record IncrSendState : Type 0 where
  pub requestor : WindowId
  pub property_atom : Atom
  pub target_atom : Atom
  pub selection_atom : Atom
  pub content : Bytes
  pub offset : ℕ
  pub start_time : ℕ
  pub completion_sent : Bool

pub record ClipboardState : Type 0 where
  pub display : Display
  pub window : WindowId
  pub hash_state : HashState
  pub current_content : Bytes
  pub acquisition_time : Option ℕ
  pub deferred_events : List Event
  pub x11_event : Bool
  pub clipboard_atom : Atom
  pub owned_selections : List Atom
  pub incr_atom : Atom
  pub pending_incr_sends : Dict IncrSendState

abbrev pub Io : Type 0 → Type 0
Io A = Exec ClipboardState A

abbrev pub incr_chunk_size : ℕ
incr_chunk_size = 65536

-- 30 seconds, in milliseconds.
abbrev pub incr_send_timeout : ℕ
incr_send_timeout = 30000

-- The state once a request has been made.
abbrev pub asked : Request → ClipboardState → ClipboardState
asked r s = record s { display = record s.display { history = r ∷ s.display.history } }

abbrev pub with_pending : Dict IncrSendState → ClipboardState → ClipboardState
with_pending d s = record s { pending_incr_sends = d }

module _ (O : Outside) where
  abbrev pub perform : Request → Io (Unit {0})
  perform r s = (O.perform s.display.history r, asked r s)

  -- `display.get_selection_owner(atom)`
  abbrev pub selection_owner : Atom → Io WindowId
  selection_owner a s = (O.selection_owner s.display.history a, asked (get_selection_owner a) s)

  -- `window.get_full_property(atom, X.AnyPropertyType)`
  abbrev pub full_property : WindowId → Atom → Io (Option Property)
  full_property w a s = (O.full_property s.display.history w a, asked (get_full_property w a) s)

  -- An outside that takes every request; it may still answer queries in any way.
  pub record Accepts : Type 0 where
    pub takes : (h : List Request) (r : Request) → O.perform h r ≡ ok tt
