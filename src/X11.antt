-- ===== src/X11.antt =====
-- What the program sees of python-xlib, of the X server and of the operating system: atoms, events
-- and requests. The outside answers each request from all that was asked of it before, in any
-- way and with any exception; which events arrive, and when, is a script of polls.
use pclipsync.Base.{ℕ, Bool, Option, List}
use pclipsync.Exec.{Exn, Result}

abbrev pub Bytes : Type 0
Bytes = List ℕ

-- Atoms, window ids and server times are numbers.
abbrev pub Atom : Type 0
Atom = ℕ

abbrev pub WindowId : Type 0
WindowId = ℕ

-- A SelectionNotify that the program sends.
pub record SelectionNotify : Type 0 where
  pub time : ℕ
  pub requestor : WindowId
  pub selection : Atom
  pub target : Atom
  pub property : Atom

pub record SelectionRequest : Type 0 where
  pub time : ℕ
  pub requestor : WindowId
  pub selection : Atom
  pub target : Atom
  pub property : Atom

pub data PropertyState : Type 0 where
  new_value deleted : PropertyState

pub record PropertyNotify : Type 0 where
  pub window : WindowId
  pub atom : Atom
  pub time : ℕ
  pub state : PropertyState

pub data Event : Type 0 where
  selection_request : SelectionRequest → Event
  set_selection_owner_notify : Atom → WindowId → Event
  selection_notify : Event
  property_notify : PropertyNotify → Event
  destroy_notify : WindowId → Event
  other_event : Event

-- The value of a property that is written, or read: `value` is bytes or items of 32 bits where the
-- program writes it, and a text or a buffer where it reads it.
pub data Property : Type 0 where
  text : Atom → List ℕ → Property
  buffer : Atom → Bytes → Property

-- `event_mask=0`, `X.PropertyChangeMask`, and `X.PropertyChangeMask | X.StructureNotifyMask`.
pub data EventMask : Type 0 where
  no_events property_change property_and_structure : EventMask

-- The names of atoms that the program interns.
pub data AtomName : Type 0 where
  clipboard_name incr_name : AtomName

-- Everything that the program asks of the outside, in the order in which it asks.
pub data Request : Type 0 where
  create_window : EventMask → Request
  intern_atom : AtomName → Request
  change_attributes : WindowId → EventMask → Request
  change_property : WindowId → Atom → Atom → ℕ → List ℕ → Request
  delete_property : WindowId → Atom → Request
  send_event : WindowId → SelectionNotify → Request
  set_selection_owner : WindowId → Atom → Request
  get_selection_owner : Atom → Request
  convert_selection : WindowId → Atom → Atom → Atom → Request
  get_full_property : WindowId → Atom → Request
  query_xfixes : Request
  select_selection_input : WindowId → Atom → Request
  flush : Request
  write : Bytes → Request
  drain : Request

-- The third-party code and the X server, as functions of all requests so far, the last one first.
-- The constants are those of Xlib's X and Xatom, and sha256 is hashlib's.
pub record Outside : Type 0 where
  pub perform : List Request → Request → Result (Unit {0})
  pub selection_owner : List Request → Atom → Result WindowId
  pub full_property : List Request → WindowId → Atom → Result (Option Property)
  pub new_window : List Request → Result WindowId
  pub named_atom : List Request → AtomName → Result Atom
  pub sha256 : Bytes → List ℕ
  pub targets_atom : Atom
  pub utf8_atom : Atom
  pub timestamp_atom : Atom
  pub prop_atom : Atom
  pub dummy_atom : Atom
  pub none_atom : ℕ
  pub primary_atom : Atom
  pub string_atom : Atom
  pub atom_atom : Atom
  pub integer_atom : Atom
  pub max_request_length : ℕ

-- One look at the event queue: the clocks (`time.monotonic` and `time.time`, in milliseconds), and
-- an event, or an empty queue and whether `select` then finds the connection readable. Reading the
-- connection may also raise.
pub data Poll : Type 0 where
  deliver : ℕ → ℕ → Event → Poll
  idle : ℕ → ℕ → Bool → Poll
  lost : Exn → Poll

-- The connection: the requests made, the last one first, the polls to come and the two clocks.
pub record Display : Type 0 where
  pub history : List Request
  pub polls : List Poll
  pub monotonic : ℕ
  pub wall : ℕ
