-- ===== src/Wait.antt =====
-- src/pclipsync/selection_utils.py: waiting for an event, with what arrives meanwhile deferred.
-- When the script of polls is used up nothing more arrives, and `select` times out.
pub mod Laws
pub mod Timestamp
use pclipsync.Base.{
  ℕ, ◌+◌, Bool, true, false, ◌&&◌, Option, none, some, List, [], ◌∷◌, ◌++◌, leb, ◌==◌,
  if◌then◌else◌,
}
use pclipsync.Exec.{Exn, Result, ok, raise, Exec, pure, gets, ◌>>=◌, ◌>>◌}
use pclipsync.X11.{
  Atom, WindowId, PropertyNotify, PropertyState, new_value, deleted, Event, selection_request,
  set_selection_owner_notify, selection_notify, property_notify, Request, change_property, flush,
  Outside, Poll, deliver, idle, lost, Display,
}
use pclipsync.State.{ClipboardState, Io, perform}

-- Milliseconds.
abbrev pub timestamp_timeout : ℕ
timestamp_timeout = 1000

unfoldable pub get_other_selection : Outside → Atom → Atom → Atom
get_other_selection O selection_atom clipboard_atom =
    if selection_atom == clipboard_atom then O.primary_atom else clipboard_atom

-- The two types of event that the program waits for.
pub data Target : Type 0 where
  any_selection_notify any_property_notify : Target

unfoldable pub has_type : Target → Event → Bool
has_type any_selection_notify selection_notify = true
has_type any_selection_notify _ = false
has_type any_property_notify (property_notify e) = true
has_type any_property_notify _ = false

-- `PropertyNotify` with `PropertyNewValue`, for this window and this property.
unfoldable pub is_new_value : WindowId → Atom → Event → Bool
is_new_value window prop_atom (property_notify e) =
    e.window == window
    && (e.atom == prop_atom && elim e.state [ new_value ↦ true | deleted ↦ false ])
is_new_value window prop_atom _ = false

-- The events that are kept for later: the others are dropped.
unfoldable pub is_deferred : Event → Bool
is_deferred (selection_request e) = true
is_deferred (set_selection_owner_notify a w) = true
is_deferred _ = false

abbrev pub polled : ℕ → ℕ → List Poll → ClipboardState → ClipboardState
polled now wall rest s = record s {
  display = record s.display { polls = rest; monotonic = now; wall = wall };
}

abbrev pub polled_lost : List Poll → ClipboardState → ClipboardState
polled_lost rest s = record s { display = record s.display { polls = rest } }

abbrev pub defer : Event → ClipboardState → ClipboardState
defer e s = if is_deferred e then record s { deferred_events = s.deferred_events ++ e ∷ [] } else s

-- The loop of both functions that wait: until an event passes the test, or the deadline.
unfoldable pub wait_loop : (Event → Bool) → ℕ → List Poll → Io (Option Event)
wait_loop test deadline [] s = (ok none, polled_lost [] s)
wait_loop test deadline (deliver now wall e ∷ rest) s =
    let s' = polled now wall rest s in
    let on = wait_loop test deadline rest (defer e s') in if test e then (ok (some e), s') else on
wait_loop test deadline (idle now wall readable ∷ rest) s =
    let s' = polled now wall rest s in
    let on = wait_loop test deadline rest s' in
    if leb deadline now then (ok none, s') else if readable then on else (ok none, s')
wait_loop test deadline (lost x ∷ rest) s = (raise x, polled_lost rest s)

unfoldable pub wait_until : (Event → Bool) → ℕ → Io (Option Event)
wait_until test timeout s = wait_loop test (s.display.monotonic + timeout) s.display.polls s

unfoldable pub wait_for_event_type : Target → ℕ → Io (Option Event)
unfolding wait_until
wait_for_event_type target timeout = wait_until (has_type target) timeout

unfoldable pub wait_for_property_notify : WindowId → Atom → ℕ → Io (Option Event)
unfolding wait_until
wait_for_property_notify window prop_atom timeout =
    wait_until (is_new_value window prop_atom) timeout

-- `event.time`
abbrev pub event_time : Option Event → Option ℕ
event_time (some (property_notify e)) = some e.time
event_time _ = none

unfoldable pub get_server_timestamp : Outside → Io (Option ℕ)
unfolding wait_for_event_type
get_server_timestamp O = do
  window ← gets (λ s. s.window)
  perform O (change_property window O.dummy_atom O.integer_atom 32 (0 ∷ []))
  perform O flush
  event ← wait_for_event_type any_property_notify timestamp_timeout
  pure (event_time event)
