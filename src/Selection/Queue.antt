-- ===== src/Selection/Queue.antt =====
-- Handling the events of transfers leaves the queue and the deferred events alone, in
-- clipboard_selection_process.py and the clipboard_selection_incr modules.
use pclipsync.Base.{◌≡◌, refl, Bool, true, false, Option, none, some, List, [], ◌∷◌}
use pclipsync.Base.Dict.{Key, get}
use pclipsync.Exec.{other_error, ok, raise, modify}
use pclipsync.X11.{
  Bytes, WindowId, Event, property_notify, destroy_notify, Outside, Poll, deliver, idle, lost,
}
use pclipsync.State.{IncrSendState, ClipboardState, Accepts}
use pclipsync.Wait.{polled, polled_lost}
use pclipsync.Incr.{
  cancel, cancel_all, keys_where, is_stale, is_requestor, unsubscribe_incr_requestor, write_chunk,
  EventType, property_delete, destroy, is_incr_send_event, acknowledge, send_incr_chunk,
  handle_property_delete, handle_destroy_event, handle_incr_send_event, cleanup_stale_incr_sends,
}
use pclipsync.State.Keeps.{Keeps, Keeps-pure, Keeps-answer, Keeps-if, Keeps-bind}
use pclipsync.Incr.Subscribe.{unsubscribe_incr_requestor_lem}
use pclipsync.Incr.WellFormed.{write_chunk_lem}
use pclipsync.Selection.{route, poll_loop}

-- The events that were deferred, and the looks at the queue to come.
pub record HasQueue (d : List Event) (p : List Poll) (s : ClipboardState) : Type 0 where
  pub deferred : s.deferred_events ≡ d
  pub polls : s.display.polls ≡ p

module _ (O : Outside) (A : Accepts O) (d : List Event) where
  unsubscribe-HasQueue :
      (p : List Poll) (st : IncrSendState) (key : Key)
      → Keeps (HasQueue d p) (unsubscribe_incr_requestor O st key)
  unsubscribe-HasQueue p st (w, a) = record {
    at = λ s q.
        rw (unsubscribe_incr_requestor_lem O A st w a s)
          (record { deferred = q.deferred; polls = q.polls });
  }

  cancel-HasQueue :
      (p : List Poll) (o : Option IncrSendState) (key : Key) → Keeps (HasQueue d p) (cancel O o key)
  unfolding cancel
  cancel-HasQueue p none key = Keeps-answer (λ s. raise other_error)
  cancel-HasQueue p (some st) key = unsubscribe-HasQueue p st key

  cancel_all-HasQueue : (p : List Poll) (keys : List Key) → Keeps (HasQueue d p) (cancel_all O keys)
  unfolding cancel_all
  cancel_all-HasQueue p [] = Keeps-pure tt
  cancel_all-HasQueue p (key ∷ keys) =
      Keeps-bind _ _ (Keeps-answer (λ s. ok (get key s.pending_incr_sends)))
        λ o. Keeps-bind _ _ (cancel-HasQueue p o key) λ _. cancel_all-HasQueue p keys

  pub stale-HasQueue : (p : List Poll) → Keeps (HasQueue d p) (cleanup_stale_incr_sends O)
  unfolding cleanup_stale_incr_sends
  stale-HasQueue p =
      Keeps-bind _ _
        (Keeps-answer (λ s. ok (keys_where (is_stale s.display.wall) s.pending_incr_sends)))
        λ keys. cancel_all-HasQueue p keys

  destroy-HasQueue :
      (p : List Poll) (w : WindowId) → Keeps (HasQueue d p) (handle_destroy_event O w)
  unfolding handle_destroy_event
  destroy-HasQueue p w =
      Keeps-bind _ _ (Keeps-answer (λ s. ok (keys_where (is_requestor w) s.pending_incr_sends)))
        λ keys. cancel_all-HasQueue p keys

  write_chunk-HasQueue :
      (p : List Poll) (key : Key) (st st' : IncrSendState) (chunk : Bytes)
      → Keeps (HasQueue d p) (write_chunk O key st chunk st')
  write_chunk-HasQueue p key st st' chunk = record {
    at = λ s q.
        rw (write_chunk_lem O A key st st' chunk s)
          (record { deferred = q.deferred; polls = q.polls });
  }

  acknowledge-HasQueue :
      (p : List Poll) (o : Option IncrSendState) (key : Key)
      → Keeps (HasQueue d p) (acknowledge O o key)
  unfolding acknowledge send_incr_chunk
  acknowledge-HasQueue p none key = Keeps-pure tt
  acknowledge-HasQueue p (some st) key =
      search (Keeps-if, unsubscribe-HasQueue, write_chunk-HasQueue)

  incr_event-HasQueue :
      (p : List Poll) (e : Event) (event_type : EventType)
      → Keeps (HasQueue d p) (handle_incr_send_event O e event_type)
  unfolding handle_incr_send_event handle_property_delete
  incr_event-HasQueue p (destroy_notify w) destroy = destroy-HasQueue p w
  incr_event-HasQueue p (property_notify e) destroy = destroy-HasQueue p e.window
  incr_event-HasQueue p (property_notify e) property_delete =
      Keeps-bind _ _ (Keeps-answer (λ s. ok (get (e.window, e.atom) s.pending_incr_sends)))
        λ o. acknowledge-HasQueue p o (e.window, e.atom)
  incr_event-HasQueue p _ _ = Keeps-answer (λ s. raise other_error)

  abbrev HasDeferred : ClipboardState → Type 0
  HasDeferred s = s.deferred_events ≡ d

  route-HasDeferred :
      (e : Event) (events : List Event) (m : Bool × Option EventType)
      → Keeps HasDeferred (route O e events m)
  unfolding route
  route-HasDeferred e events (true, some event_type) =
      Keeps-bind _ _
        (record {
          at = λ s q.
              ((incr_event-HasQueue s.display.polls e event_type).at s
                (record { deferred = q; polls = refl })).deferred;
        })
        λ _. Keeps-pure events
  route-HasDeferred e events (true, none) = Keeps-if _ _ _ (Keeps-pure _) (Keeps-pure _)
  route-HasDeferred e events (false, o) = Keeps-if _ _ _ (Keeps-pure _) (Keeps-pure _)

  pub poll_loop-HasDeferred :
      (events : List Event) (polls : List Poll) → Keeps HasDeferred (poll_loop O events polls)
  unfolding poll_loop
  poll_loop-HasDeferred events [] = Keeps-pure events
  poll_loop-HasDeferred events (deliver now wall e ∷ rest) =
      Keeps-bind (modify (polled now wall rest)) _ (record { at = λ s q. q })
        λ _. Keeps-bind _ _ (Keeps-answer (λ s. ok s.pending_incr_sends)) λ pending.
          Keeps-bind _ _ (route-HasDeferred e events (is_incr_send_event e pending))
            λ events'. poll_loop-HasDeferred events' rest
  poll_loop-HasDeferred events (idle now wall readable ∷ rest) =
      Keeps-bind (modify (polled now wall rest)) _ (record { at = λ s q. q }) λ _. Keeps-pure events
  poll_loop-HasDeferred events (lost x ∷ rest) =
      Keeps-bind (modify (polled_lost rest)) _ (record { at = λ s q. q })
        λ _. Keeps-answer (λ s. raise x)
