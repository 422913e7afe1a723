-- ===== src/Wait/Timestamp.antt =====
-- `get_server_timestamp` of selection_utils.py, where a PropertyNotify waits in the queue.
use pclipsync.Base.{ℕ, ◌≡◌, some, List, [], ◌∷◌}
use pclipsync.Exec.{ok}
use pclipsync.X11.{PropertyNotify, property_notify, change_property, flush, Outside, Poll, deliver}
use pclipsync.State.{ClipboardState, asked, Accepts}
use pclipsync.Wait.{polled, has_type, wait_loop, wait_for_event_type, get_server_timestamp}

abbrev pub with_polls : List Poll → ClipboardState → ClipboardState
with_polls polls s = record s { display = record s.display { polls = polls } }

-- On an X server that takes every request, where a PropertyNotify is first in the queue:
-- get_server_timestamp takes it off the queue and returns its time, whatever its window, property
-- and state, and nothing but the clocks and the requests changes, so no transfer is moved on.
pub get_server_timestamp-property_notify :
    (O : Outside)
    → Accepts O
    → (now wall : ℕ) (e : PropertyNotify) (rest : List Poll) (s : ClipboardState)
    → get_server_timestamp O (with_polls (deliver now wall (property_notify e) ∷ rest) s) ≡ (
      ok (some e.time),
      polled now wall rest (
          asked flush (asked (change_property s.window O.dummy_atom O.integer_atom 32 (0 ∷ [])) s)),
    )
unfolding get_server_timestamp wait_for_event_type wait_loop has_type
get_server_timestamp-property_notify O A now wall e rest s = simp A.takes
