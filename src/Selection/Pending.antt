-- ===== src/Selection/Pending.antt =====
-- What `process_pending_events` of clipboard_selection_process.py returns.
use pclipsync.Base.{
  ℕ, ◌≡◌, refl, sym, ap, subst, ◌∙◌, Bool, true, false, Option, none, some, List, [], ◌∷◌, ◌++◌,
  append_assoc, append-nil, arith, leb, length, if◌then◌else◌,
}
use pclipsync.Base.Dict.{get}
use pclipsync.Exec.{Result, ok, pure}
use pclipsync.X11.{Event, property_notify, destroy_notify, Outside, Poll, deliver, idle, lost}
use pclipsync.State.{IncrSendState, ClipboardState, Io, Accepts}
use pclipsync.Wait.{is_deferred, polled}
use pclipsync.Incr.{
  Pending, EventType, property_delete, destroy, is_incr_send_event, is_property_delete_match,
  is_destroy_match, acknowledge, send_incr_chunk, handle_property_delete, handle_incr_send_event,
  cleanup_stale_incr_sends,
}
use pclipsync.Incr.Subscribe.{unsubscribe_incr_requestor_lem}
use pclipsync.Incr.Cleanup.{IsWellFormed, handle_destroy_event_lem, cleanup_stale_incr_sends_lem}
use pclipsync.Incr.WellFormed.{write_chunk_lem}
use pclipsync.Selection.{route, poll_loop, process_pending_events}
use pclipsync.Selection.Queue.{stale-HasQueue, poll_loop-HasDeferred}
use pclipsync.Selection.WellFormed.{same, route-Keeps, poll_loop-Keeps}

-- The events that wait in the queue and are kept, up to the first look that finds it empty.
abbrev pub queued : List Poll → List Event
queued [] = []
queued (deliver now wall e ∷ rest) =
    let later = queued rest in if is_deferred e then e ∷ later else later
queued (_ ∷ rest) = []

-- No look at the queue raises before one finds it empty.
abbrev pub IsConnected : List Poll → Type 0
IsConnected [] = Unit
IsConnected (deliver now wall e ∷ rest) = IsConnected rest
IsConnected (idle now wall readable ∷ rest) = Unit
IsConnected (lost x ∷ rest) = ⊥

module _ (O : Outside) (A : Accepts O) where
  either_ok :
      (b : Bool) (m n : Io (Unit {0})) (s : ClipboardState)
      → (m s).0 ≡ ok tt
      → (n s).0 ≡ ok tt
      → ((if b then m else n) s).0 ≡ ok tt
  either_ok true m n s p q = p
  either_ok false m n s p q = q

  acknowledge_ok :
      (o : Option IncrSendState) (w p : ℕ) (s : ClipboardState)
      → (acknowledge O o (w, p) s).0 ≡ ok tt
  unfolding acknowledge send_incr_chunk
  acknowledge_ok none w p s = refl
  acknowledge_ok (some st) w p s =
      either_ok st.completion_sent _ _ s
        (ap (λ (r : Result (Unit {0}) × ClipboardState). r.0)
          (unsubscribe_incr_requestor_lem O A st w p s))
        (either_ok (leb (length st.content) st.offset) _ _ s
          (ap (λ (r : Result (Unit {0}) × ClipboardState). r.0)
            (write_chunk_lem O A (w, p) st _ _ s))
          (ap (λ (r : Result (Unit {0}) × ClipboardState). r.0)
            (write_chunk_lem O A (w, p) st _ _ s)))

  pub handle_property_delete_ok :
      (w p : ℕ) (s : ClipboardState) → (handle_property_delete O w p s).0 ≡ ok tt
  unfolding handle_property_delete
  handle_property_delete_ok w p s = acknowledge_ok (get (w, p) s.pending_incr_sends) w p s

  -- An event that belongs to a transfer is handled with no exception, and is not kept.
  handle_match_ok :
      (e : Event) (pending : Pending) (event_type : EventType) (s : ClipboardState)
      → IsWellFormed s
      → is_incr_send_event e pending ≡ (true, some event_type)
      → ((handle_incr_send_event O e event_type s).0 ≡ ok tt) × (is_deferred e ≡ false)
  unfolding handle_incr_send_event is_incr_send_event is_property_delete_match is_destroy_match
  handle_match_ok e [] event_type s wf m = ground arith
  handle_match_ok (property_notify e) (x ∷ pending) property_delete s wf m =
      (handle_property_delete_ok e.window e.atom s, unfold is_deferred in refl)
  handle_match_ok (property_notify e) (x ∷ pending) destroy s wf m =
      ((handle_destroy_event_lem O A s wf e.window).returned, unfold is_deferred in refl)
  handle_match_ok (destroy_notify w) (x ∷ pending) destroy s wf m =
      ((handle_destroy_event_lem O A s wf w).returned, unfold is_deferred in refl)
  handle_match_ok (destroy_notify w) (x ∷ pending) property_delete s wf m = ground arith
  handle_match_ok _ (x ∷ pending) event_type s wf m = ground arith

  pub route_value :
      (e : Event) (events : List Event) (s : ClipboardState) (m : Bool × Option EventType)
      → IsWellFormed s
      → is_incr_send_event e s.pending_incr_sends ≡ m
      → (route O e events m s).0 ≡ ok (if is_deferred e then events ++ e ∷ [] else events)
  unfolding route
  route_value e events s (true, some event_type) wf h =
      let (fine, dropped) = handle_match_ok e s.pending_incr_sends event_type s wf h in
      rw (fine, dropped)
  route_value e events s (true, none) wf h = keep (is_deferred e)
    where
      keep :
          (b : Bool)
          → ((if b then pure (events ++ e ∷ []) else pure events) s).0
            ≡ ok (if b then events ++ e ∷ [] else events)
      keep true = refl
      keep false = refl
  route_value e events s (false, o) wf h = keep (is_deferred e)
    where
      keep :
          (b : Bool)
          → ((if b then pure (events ++ e ∷ []) else pure events) s).0
            ≡ ok (if b then events ++ e ∷ [] else events)
      keep true = refl
      keep false = refl

  poll_loop_value :
      (events : List Event) (polls : List Poll) (s : ClipboardState)
      → IsWellFormed s
      → IsConnected polls
      → (poll_loop O events polls s).0 ≡ ok (events ++ queued polls)
  unfolding poll_loop
  poll_loop_value events [] s wf c = ap (λ l. ok l) (sym (append-nil events))
  poll_loop_value events (idle now wall readable ∷ rest) s wf c =
      ap (λ l. ok l) (sym (append-nil events))
  poll_loop_value events (lost x ∷ rest) s wf c = elim c [ ]
  poll_loop_value events (deliver now wall e ∷ rest) s wf c =
      let s' = polled now wall rest s in
      let m = is_incr_send_event e s.pending_incr_sends in
      let wf' = same s s' refl refl wf in
      let on =
        poll_loop_value (if is_deferred e then events ++ e ∷ [] else events) rest
          (route O e events m s').1 ((route-Keeps O A e events m).at s' wf') c in
      rw (route_value e events s' m wf' refl) (on ∙ ap (λ l. ok l) (kept (is_deferred e)))
    where
      kept :
          (b : Bool)
          → (if b then events ++ e ∷ [] else events) ++ queued rest
            ≡ events ++ (if b then e ∷ queued rest else queued rest)
      kept true = append_assoc events (e ∷ []) (queued rest)
      kept false = refl

-- What a look at the pending events gives: the deferred events and then the kept ones of the queue,
-- each once and in order; none stays deferred, and the transfers stay well formed.
pub record Pended (s : ClipboardState) (r : Result (List Event) × ClipboardState) : Type 0 where
  pub returned : r.0 ≡ ok (s.deferred_events ++ queued s.display.polls)
  pub drained : r.1.deferred_events ≡ []
  pub well_formed : IsWellFormed r.1

-- On an X server that takes every request, from a well-formed state and with no poll that raises
-- before the queue is empty, a look at the pending events raises nothing and returns the deferred
-- events and then the selection requests and changes of owner that are queued until then, each
-- once and in order; none stays deferred, and the state stays well formed.
pub process_pending_events_lem :
    (O : Outside)
    → Accepts O
    → (s : ClipboardState) → IsWellFormed s
    → IsConnected s.display.polls
    → Pended s (process_pending_events O s)
unfolding process_pending_events
process_pending_events_lem O A s wf c =
    let cleaned = cleanup_stale_incr_sends_lem O A s wf in
    let q =
      (stale-HasQueue O A s.deferred_events s.display.polls).at s
        (record { deferred = refl; polls = refl }) in
    let t = (cleanup_stale_incr_sends O s).1 in
    let u : ClipboardState = record t { deferred_events = [] } in
    let wf' = same t u refl refl cleaned.well_formed in
    rw cleaned.returned (record {
      returned =
          poll_loop_value O A t.deferred_events t.display.polls u wf'
            (subst (λ p. IsConnected p) (sym q.polls) c)
          ∙ ap (λ l. ok (l ++ queued t.display.polls)) q.deferred
          ∙ ap (λ p. ok (s.deferred_events ++ queued p)) q.polls;
      drained = (poll_loop-HasDeferred O A [] t.deferred_events t.display.polls).at u refl;
      well_formed = (poll_loop-Keeps O A t.deferred_events t.display.polls).at u wf';
    })
