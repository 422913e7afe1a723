-- ===== src/Selection.antt =====
-- src/pclipsync/clipboard_selection_request.py, clipboard_selection_request_helpers.py and
-- clipboard_selection_process.py: answering requests for the clipboard, and the queue of events.
pub mod Replies
pub mod WellFormed
pub mod Queue
pub mod Pending
pub mod Progress
use pclipsync.Base.{
  ℕ, Bool, true, false, ◌&&◌, ◌||◌, Option, none, some, List, [], ◌∷◌, ◌++◌, ◌==◌, if◌then◌else◌,
}
use pclipsync.Exec.{Exn, Result, ok, raise, Exec, pure, throw, gets, modify, ◌>>=◌, ◌>>◌}
use pclipsync.X11.{
  Bytes, Atom, WindowId, SelectionNotify, SelectionRequest, Event, selection_request,
  set_selection_owner_notify, Request, change_property, send_event, flush, Outside, Poll, deliver,
  idle, lost, Display,
}
use pclipsync.State.{IncrSendState, ClipboardState, Io, perform}
use pclipsync.Incr.{
  EventType, is_incr_send_event, handle_incr_send_event, cleanup_stale_incr_sends,
  needs_incr_transfer, initiate_incr_send, reply,
}
use pclipsync.Wait.{is_deferred, polled, polled_lost}

module _ (O : Outside) where
  unfoldable pub handle_targets_request : SelectionRequest → Io (Unit {0})
  handle_targets_request e = perform O (
      change_property e.requestor e.property O.atom_atom 32
        (O.targets_atom ∷ O.utf8_atom ∷ O.string_atom ∷ O.timestamp_atom ∷ []))

  -- Whether the INCR transfer sends its own SelectionNotify.
  unfoldable pub handle_content_request : SelectionRequest → Bytes → Atom → Io Bool
  handle_content_request e content incr_atom =
      if needs_incr_transfer O content
      then (do initiate_incr_send O e content incr_atom; pure true)
      else (do perform O (change_property e.requestor e.property e.target 8 content); pure false)

  -- `event.property = X.NONE` is a new event.
  unfoldable pub handle_timestamp_request : SelectionRequest → Option ℕ → Io SelectionRequest
  handle_timestamp_request e none = pure (record e { property = O.none_atom })
  handle_timestamp_request e (some time) = do
    perform O (change_property e.requestor e.property O.integer_atom 32 (time ∷ []))
    pure e

  unfoldable pub send_selection_notify : SelectionRequest → Io (Unit {0})
  send_selection_notify e = do
    perform O (send_event e.requestor (reply e e.property))
    perform O flush

  unfoldable pub answer_content : SelectionRequest → Bytes → Atom → Io (Unit {0})
  answer_content e content incr_atom = do
    incr_handled ← handle_content_request e content incr_atom
    if incr_handled then pure tt else send_selection_notify e

  unfoldable pub handle_selection_request :
      SelectionRequest → Bytes → Option ℕ → Atom → Io (Unit {0})
  handle_selection_request e content acquisition_time incr_atom =
      if e.target == O.targets_atom
      then (do handle_targets_request e; send_selection_notify e)
      else if e.target == O.utf8_atom || e.target == O.string_atom
      then answer_content e content incr_atom
      else if e.target == O.timestamp_atom
      then (do e' ← handle_timestamp_request e acquisition_time; send_selection_notify e')
      else send_selection_notify (record e { property = O.none_atom })

  -- An event of the queue: an INCR event is handled at once, and of the others only selection
  -- requests and changes of owner are kept.
  unfoldable pub route : Event → List Event → Bool × Option EventType → Io (List Event)
  route e events (true, some event_type) = do handle_incr_send_event O e event_type; pure events
  route e events _ = if is_deferred e then pure (events ++ e ∷ []) else pure events

  -- `while display.pending_events() > 0`
  unfoldable pub poll_loop : List Event → List Poll → Io (List Event)
  unfolding route
  poll_loop events [] = pure events
  poll_loop events (deliver now wall e ∷ rest) = do
    modify (polled now wall rest)
    pending ← gets (λ s. s.pending_incr_sends)
    events' ← route e events (is_incr_send_event e pending)
    poll_loop events' rest
  poll_loop events (idle now wall readable ∷ rest) = do modify (polled now wall rest); pure events
  poll_loop events (lost x ∷ rest) = do modify (polled_lost rest); throw x

  unfoldable pub process_pending_events : Io (List Event)
  unfolding poll_loop
  process_pending_events = do
    cleanup_stale_incr_sends O
    deferred ← gets (λ s. s.deferred_events)
    modify (λ s. record s { deferred_events = [] })
    polls ← gets (λ s. s.display.polls)
    poll_loop deferred polls
