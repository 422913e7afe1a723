-- ===== src/Tests/Samples.antt =====
-- An X server that takes every request, states and requests to run the program on.
use pclipsync.Base.{refl, false, none, some, List, [], ◌∷◌}
use pclipsync.Exec.{ok}
use pclipsync.HashState.{fresh}
use pclipsync.Protocol.{closed}
use pclipsync.X11.{
  SelectionRequest, Bytes, Request, buffer, Outside, Display, clipboard_name, incr_name,
  get_full_property,
}
use pclipsync.State.{ClipboardState, Accepts}
use pclipsync.SyncLoop.{Session}

-- The first look at a property finds a chunk, the later ones an empty one.
abbrev pub chunk_after : List Request → Bytes
chunk_after [] = b'a' ∷ b'b' ∷ []
chunk_after (get_full_property w a ∷ h) = []
chunk_after (_ ∷ h) = chunk_after h

abbrev pub outside : Outside
outside = record {
  perform = λ h r. ok tt;
  selection_owner = λ h a. ok 7;
  full_property = λ h w a. ok (some (buffer 31 (chunk_after h)));
  new_window = λ h. ok 7;
  named_atom = λ h n. elim n [ clipboard_name ↦ ok 100 | incr_name ↦ ok 106 ];
  sha256 = λ content. content;
  targets_atom = 101;
  utf8_atom = 102;
  timestamp_atom = 103;
  prop_atom = 104;
  dummy_atom = 105;
  none_atom = 0;
  primary_atom = 1;
  string_atom = 31;
  atom_atom = 4;
  integer_atom = 19;
  max_request_length = 65535;
}

abbrev pub accepts : Accepts outside
accepts = record { takes = λ h r. refl }

abbrev pub display : Display
display = record { history = []; polls = []; monotonic = 0; wall = 40000 }

abbrev pub idle_state : ClipboardState
idle_state = record {
  display = display;
  window = 7;
  hash_state = fresh;
  current_content = [];
  acquisition_time = none;
  deferred_events = [];
  x11_event = false;
  clipboard_atom = 100;
  owned_selections = [];
  incr_atom = 106;
  pending_incr_sends = [];
}

abbrev pub session : Session
session = record {
  state = idle_state;
  reader = record { bytes = []; ending = closed };
  watching = false;
}

abbrev pub hello : Bytes
hello = b'h' ∷ b'i' ∷ []

abbrev pub request : SelectionRequest
request = record { time = 5; requestor = 9; selection = 100; target = 102; property = 40 }
