-- ===== src/SyncLoop/Unsent.antt =====
-- What of sync_loop_inner.py, clipboard_selection_process.py, clipboard_selection_request.py and the
-- clipboard_selection_incr_*.py modules never writes to the socket, whatever is raised.
use pclipsync.Base.{ℕ, ◌≡◌, refl, ap, ◌∙◌, Bool, true, false, Option, none, some, List, [], ◌∷◌}
use pclipsync.Base.Dict.{Key, get}
use pclipsync.Exec.{Exn, other_error, ok, raise, modify}
use pclipsync.X11.{
  Bytes, Atom, WindowId, SelectionRequest, Event, property_notify, destroy_notify, Request, write,
  Outside, Poll, deliver, idle, lost,
}
use pclipsync.State.{IncrSendState, ClipboardState, perform}
use pclipsync.State.Keeps.{Keeps, Keeps-pure, Keeps-answer, Keeps-if, Keeps-catch, Keeps-bind}
use pclipsync.Wait.{polled, polled_lost}
use pclipsync.Incr.{
  EventType, property_delete, destroy, is_incr_send_event, unsubscribe_requestor_events,
  unsubscribe_incr_requestor, write_chunk, send_incr_chunk, acknowledge, handle_property_delete,
  cancel, cancel_all, handle_destroy_event, handle_incr_send_event, cleanup_stale_incr_sends,
  cleanup_incr_sends_on_ownership_loss, refuse_selection_request, write_incr_and_notify, give_up,
  initiate_incr_send,
}
use pclipsync.Selection.{
  handle_targets_request, handle_content_request, handle_timestamp_request, send_selection_notify,
  answer_content, handle_selection_request, route, poll_loop, process_pending_events,
}
use pclipsync.Sync.Silent.{network}
use pclipsync.SyncLoop.{lose_ownership}

abbrev is_unsent : Request → Bool
is_unsent (write bytes) = false
is_unsent _ = true

network-is_unsent :
    (r : Request) (h : List Request) → is_unsent r ≡ true → network (r ∷ h) ≡ network h
unfolding network
network-is_unsent (write bytes) h e = cc
network-is_unsent _ h e = refl

-- `n` is what was written to the socket.
pub record IsUnsent (n : List Bytes) (s : ClipboardState) : Type 0 where
  pub sent : network s.display.history ≡ n

module _ (O : Outside) (n : List Bytes) where
  asks : (r : Request) → is_unsent r ≡ true → Keeps (IsUnsent n) (perform O r)
  asks r e = record {
    at = λ s p. record { sent = network-is_unsent r s.display.history e ∙ p.sent };
  }

  untouched :
      (f : ClipboardState → ClipboardState)
      → ((s : ClipboardState) → (f s).display.history ≡ s.display.history)
      → Keeps (IsUnsent n) (modify f)
  untouched f h = record { at = λ s p. record { sent = ap network (h s) ∙ p.sent } }

  ruleset rules =
      (Keeps-pure, Keeps-answer, Keeps-if, Keeps-catch, Keeps-bind, asks, untouched, refl)

  unsubscribe-Keeps :
      (st : IncrSendState) (key : Key) → Keeps (IsUnsent n) (unsubscribe_incr_requestor O st key)
  unfolding unsubscribe_incr_requestor unsubscribe_requestor_events
  unsubscribe-Keeps st (w, p) = search rules depth 12

  write_chunk-Keeps :
      (key : Key) (st : IncrSendState) (chunk : Bytes) (st' : IncrSendState)
      → Keeps (IsUnsent n) (write_chunk O key st chunk st')
  unfolding write_chunk
  write_chunk-Keeps key st chunk st' = search rules depth 12

  send_incr_chunk-Keeps :
      (st : IncrSendState) (key : Key) → Keeps (IsUnsent n) (send_incr_chunk O st key)
  unfolding send_incr_chunk
  send_incr_chunk-Keeps st key = search (rules, write_chunk-Keeps)

  acknowledge-Keeps :
      (found : Option IncrSendState) (key : Key) → Keeps (IsUnsent n) (acknowledge O found key)
  unfolding acknowledge
  acknowledge-Keeps none key = search rules
  acknowledge-Keeps (some st) key = search (rules, unsubscribe-Keeps, send_incr_chunk-Keeps)

  handle_property_delete-Keeps :
      (w : WindowId) (a : Atom) → Keeps (IsUnsent n) (handle_property_delete O w a)
  unfolding handle_property_delete
  handle_property_delete-Keeps w a = search (rules, acknowledge-Keeps)

  cancel-Keeps :
      (found : Option IncrSendState) (key : Key) → Keeps (IsUnsent n) (cancel O found key)
  unfolding cancel
  cancel-Keeps none key = Keeps-answer (λ s. raise other_error)
  cancel-Keeps (some st) key = unsubscribe-Keeps st key

  cancel_all-Keeps : (keys : List Key) → Keeps (IsUnsent n) (cancel_all O keys)
  unfolding cancel_all
  cancel_all-Keeps [] = search rules
  cancel_all-Keeps (key ∷ keys) =
      Keeps-bind _ _ (Keeps-answer (λ s. ok (get key s.pending_incr_sends)))
        λ found. Keeps-bind _ _ (cancel-Keeps found key) λ _. cancel_all-Keeps keys

  handle_destroy_event-Keeps : (w : WindowId) → Keeps (IsUnsent n) (handle_destroy_event O w)
  unfolding handle_destroy_event
  handle_destroy_event-Keeps w = search (rules, cancel_all-Keeps)

  incr_send_event-Keeps :
      (e : Event) (event_type : EventType)
      → Keeps (IsUnsent n) (handle_incr_send_event O e event_type)
  unfolding handle_incr_send_event
  incr_send_event-Keeps (destroy_notify w) destroy = handle_destroy_event-Keeps w
  incr_send_event-Keeps (property_notify e) destroy = handle_destroy_event-Keeps e.window
  incr_send_event-Keeps (property_notify e) property_delete =
      handle_property_delete-Keeps e.window e.atom
  incr_send_event-Keeps _ _ = Keeps-answer (λ s. raise other_error)

  give_up-Keeps : (e : SelectionRequest) (x : Exn) → Keeps (IsUnsent n) (give_up O e x)
  unfolding give_up unsubscribe_requestor_events refuse_selection_request
  give_up-Keeps e x = search rules depth 14

  write_incr-Keeps :
      (e : SelectionRequest) (incr_atom : Atom) (content : Bytes)
      → Keeps (IsUnsent n) (write_incr_and_notify O e incr_atom content)
  unfolding write_incr_and_notify
  write_incr-Keeps e incr_atom content = search rules depth 14

  initiate-Keeps :
      (e : SelectionRequest) (content : Bytes) (incr_atom : Atom)
      → Keeps (IsUnsent n) (initiate_incr_send O e content incr_atom)
  unfolding initiate_incr_send
  initiate-Keeps e content incr_atom = search (rules, give_up-Keeps, write_incr-Keeps)

  notify-Keeps : (e : SelectionRequest) → Keeps (IsUnsent n) (send_selection_notify O e)
  unfolding send_selection_notify
  notify-Keeps e = search rules

  timestamp-Keeps :
      (e : SelectionRequest) (time : Option ℕ)
      → Keeps (IsUnsent n) (handle_timestamp_request O e time)
  unfolding handle_timestamp_request
  timestamp-Keeps e none = search rules
  timestamp-Keeps e (some time) = search rules

  answer-Keeps :
      (e : SelectionRequest) (content : Bytes) (incr_atom : Atom)
      → Keeps (IsUnsent n) (answer_content O e content incr_atom)
  unfolding answer_content handle_content_request
  answer-Keeps e content incr_atom = search (rules, initiate-Keeps, notify-Keeps) depth 12

  -- Answering a selection request writes nothing to the socket.
  pub selection_request-IsUnsent :
      (e : SelectionRequest) (content : Bytes) (time : Option ℕ) (incr_atom : Atom)
      → Keeps (IsUnsent n) (handle_selection_request O e content time incr_atom)
  unfolding handle_selection_request handle_targets_request
  selection_request-IsUnsent e content time incr_atom =
      search (rules, answer-Keeps, timestamp-Keeps, notify-Keeps) depth 12

  route-Keeps :
      (e : Event) (events : List Event) (m : Bool × Option EventType)
      → Keeps (IsUnsent n) (route O e events m)
  unfolding route
  route-Keeps e events (true, some event_type) = search (rules, incr_send_event-Keeps)
  route-Keeps e events (true, none) = search rules
  route-Keeps e events (false, m) = search rules

  poll_loop-Keeps :
      (events : List Event) (polls : List Poll) → Keeps (IsUnsent n) (poll_loop O events polls)
  unfolding poll_loop
  poll_loop-Keeps events [] = Keeps-pure events
  poll_loop-Keeps events (deliver now wall e ∷ rest) =
      Keeps-bind (modify (polled now wall rest)) _ (untouched _ (λ s. refl)) λ _.
        Keeps-bind _ _ (Keeps-answer (λ s. ok s.pending_incr_sends)) λ pending.
          Keeps-bind _ _ (route-Keeps e events (is_incr_send_event e pending))
            λ events'. poll_loop-Keeps events' rest
  poll_loop-Keeps events (idle now wall readable ∷ rest) =
      Keeps-bind (modify (polled now wall rest)) _ (untouched _ (λ s. refl)) λ _. Keeps-pure events
  poll_loop-Keeps events (lost x ∷ rest) =
      Keeps-bind (modify (polled_lost rest)) _ (untouched _ (λ s. refl))
        λ _. Keeps-answer (λ s. raise x)

  -- Looking at the pending events writes nothing to the socket.
  pub pending_events-IsUnsent : Keeps (IsUnsent n) (process_pending_events O)
  unfolding process_pending_events cleanup_stale_incr_sends
  pending_events-IsUnsent = search (rules, cancel_all-Keeps, poll_loop-Keeps) depth 12

  -- Losing a selection writes nothing to the socket.
  pub lose_ownership-IsUnsent : (a : Atom) → Keeps (IsUnsent n) (lose_ownership O a)
  unfolding lose_ownership cleanup_incr_sends_on_ownership_loss
  lose_ownership-IsUnsent a = search (rules, cancel_all-Keeps) depth 12
