-- ===== src/Selection/Progress.antt =====
-- A transfer moves on by its own acknowledgements alone, whatever else is queued, and with enough of
-- them it ends: process_pending_events of clipboard_selection_process.py.
pub mod Events
pub mod Ends
use pclipsync.Base.{
  ℕ, zero, suc, ◌+◌, ◌≤◌, ◌≡◌, ◌≢◌, refl, sym, ap, ◌∙◌, Bool, true, false, ◌&&◌, Option, none, some,
  List, [], ◌∷◌, ◌++◌, arith, ◌==◌, if◌then◌else◌, Bool-cases, ◌⊎◌, inl, inr, flatten,
}
use pclipsync.Base.Dict.{Key, key_eq, get}
use pclipsync.Exec.{Result, ok, raise, pure, continue}
use pclipsync.X11.{
  Bytes, WindowId, Atom, PropertyNotify, PropertyState, deleted, new_value, Event, property_notify,
  destroy_notify, Outside, Poll, deliver, idle, lost,
}
use pclipsync.State.{IncrSendState, ClipboardState, Io, Accepts}
use pclipsync.Wait.{is_deferred, polled, polled_lost}
use pclipsync.Incr.{
  Pending, EventType, property_delete, destroy, is_incr_send_event, is_property_delete_match,
  is_destroy_match, requestor_ids, handle_incr_send_event, handle_property_delete,
  handle_destroy_event, is_stale, cleanup_stale_incr_sends,
}
use pclipsync.Incr.Chunks.{writes, pieces, sent}
use pclipsync.Incr.Transfer.{acknowledgements, chunk_count, transfer_lem}
use pclipsync.Incr.Cleanup.{IsWellFormed, cleanup_stale_incr_sends_lem}
use pclipsync.Incr.View.{View, view, acked, view-handle_property_delete, view-other_property_delete}
use pclipsync.Incr.View.Spared.{view-handle_destroy_event}
use pclipsync.Selection.{route, poll_loop, process_pending_events}
use pclipsync.Selection.WellFormed.{same, route-Keeps}
use pclipsync.Selection.Progress.Events.{
  is_acknowledgement, is_end_of, is_of_transfers, unmatched, matched_delete, matched_destroy,
  matched_type, matched_some,
}
use pclipsync.Selection.Pending.{route_value}
use pclipsync.Selection.Queue.{HasQueue, stale-HasQueue}

-- How many acknowledgements are queued before a look at the queue finds it empty or raises.
abbrev pub acknowledgement_count : WindowId → Atom → List Poll → ℕ
acknowledgement_count w p [] = 0
acknowledgement_count w p (deliver now wall e ∷ rest) =
    let n = acknowledgement_count w p rest in if is_acknowledgement w p e then suc n else n
acknowledgement_count w p (_ ∷ rest) = 0

-- Until then no event tells that the window is gone.
abbrev pub Survives : WindowId → List Poll → Type 0
Survives w [] = Unit
Survives w (deliver now wall e ∷ rest) = (is_end_of w e ≡ false) × Survives w rest
Survives w (_ ∷ rest) = Unit

abbrev pub acked_times : ℕ → View → View
acked_times zero v = v
acked_times (suc n) v = acked_times n (acked v)

module _ (O : Outside) (A : Accepts O) (w p : ℕ) where
  -- What an event does to the view of the transfer.
  abbrev after : Event → ClipboardState → View
  after e s = if is_acknowledgement w p e then acked (view w p s) else view w p s

  after_own :
      (e : Event) (s : ClipboardState)
      → is_acknowledgement w p e ≡ true
      → after e s ≡ acked (view w p s)
  after_own e s h = rw h

  after_other :
      (e : Event) (s : ClipboardState) → is_acknowledgement w p e ≡ false → after e s ≡ view w p s
  after_other e s h = rw h

  notified :
      (e : PropertyNotify) (s : ClipboardState)
      → IsWellFormed s
      → e.state ≡ deleted
      → view w p (handle_property_delete O e.window e.atom s).1 ≡ after (property_notify e) s
  notified e s wf gone = elim (Bool-cases (key_eq (e.window, e.atom) (w, p))) [
    | inl own ↦
        let same_window : e.window ≡ w = ground arith in
        let same_atom : e.atom ≡ p = ground arith in
        ap (λ v. view w p (handle_property_delete O v e.atom s).1) same_window
        ∙ ap (λ q. view w p (handle_property_delete O w q s).1) same_atom
        ∙ view-handle_property_delete O A w p s wf
        ∙ sym (after_own (property_notify e) s (ground arith))
    | inr other ↦
        view-other_property_delete O A w p e.window e.atom other s wf
        ∙ sym (after_other (property_notify e) s (ground arith))
  ]

  -- One event of the queue.
  handled :
      (e : Event) (event_type : EventType) (s : ClipboardState)
      → IsWellFormed s
      → is_end_of w e ≡ false
      → is_incr_send_event e s.pending_incr_sends ≡ (true, some event_type)
      → view w p (handle_incr_send_event O e event_type s).1 ≡ after e s
  unfolding handle_incr_send_event is_of_transfers
  handled (property_notify e) property_delete s wf alive m =
      notified e s wf (matched_delete e s.pending_incr_sends property_delete m).1
  handled (property_notify e) destroy s wf alive m =
      let t = (matched_delete e s.pending_incr_sends destroy m).0 in absurd (cc)
  handled (destroy_notify v) destroy s wf alive m = view-handle_destroy_event O A w p s wf v alive
  handled (destroy_notify v) property_delete s wf alive m =
      let t = matched_destroy v s.pending_incr_sends property_delete m in absurd (cc)
  handled e event_type s wf alive m =
      let t = matched_type e s.pending_incr_sends event_type m in absurd (cc)

  not_matched :
      (e : Event) (s : ClipboardState)
      → (is_incr_send_event e s.pending_incr_sends).0 ≡ false
      → view w p s ≡ after e s
  unfolding acked
  not_matched e s missed = elim (Bool-cases (is_acknowledgement w p e)) [
    | inl own ↦
        let there : get (w, p) s.pending_incr_sends ≡ none =
          unmatched w p e s.pending_incr_sends missed own in
        sym (
          after_own e s own
          ∙ ap (λ o. acked (o, writes w p s.display.history)) there
          ∙ ap (λ (o : Option IncrSendState). (o, writes w p s.display.history)) (sym there))
    | inr other ↦ sym (after_other e s other)
  ]

  dropped-same :
      (r : Result (Unit {0})) (events : List Event) (t : ClipboardState)
      → (continue r (λ _. pure events) t).1 ≡ t
  dropped-same (ok tt) events t = refl
  dropped-same (raise x) events t = refl

  kept-same :
      (b : Bool) (l m : List Event) (s : ClipboardState) → ((if b then pure l else pure m) s).1 ≡ s
  kept-same true l m s = refl
  kept-same false l m s = refl

  view-route :
      (e : Event) (events : List Event) (s : ClipboardState) (m : Bool × Option EventType)
      → IsWellFormed s
      → is_end_of w e ≡ false
      → is_incr_send_event e s.pending_incr_sends ≡ m
      → view w p (route O e events m s).1 ≡ after e s
  unfolding route
  view-route e events s (true, some event_type) wf alive h =
      let (r, t) = handle_incr_send_event O e event_type s in
      ap (λ (u : ClipboardState). view w p u) (dropped-same r events t)
      ∙ handled e event_type s wf alive h
  view-route e events s (true, none) wf alive h = absurd (matched_some e s.pending_incr_sends h)
  view-route e events s (false, o) wf alive h =
      ap (λ (u : ClipboardState). view w p u)
        (kept-same (is_deferred e) (events ++ e ∷ []) events s)
      ∙ not_matched e s (ap (λ (m : Bool × Option EventType). m.0) h)

  acked_if :
      (b : Bool) (n : ℕ) (v : View)
      → acked_times n (if b then acked v else v) ≡ acked_times (if b then suc n else n) v
  acked_if true n v = refl
  acked_if false n v = refl

  -- Whatever else is queued, a look at the queue does to a transfer what the acknowledgements of it
  -- in the queue do, one after the other.
  pub view-poll_loop :
      (events : List Event) (polls : List Poll) (s : ClipboardState)
      → IsWellFormed s
      → Survives w polls
      → view w p (poll_loop O events polls s).1
        ≡ acked_times (acknowledgement_count w p polls) (view w p s)
  unfolding poll_loop
  view-poll_loop events [] s wf alive = refl
  view-poll_loop events (idle now wall readable ∷ rest) s wf alive = refl
  view-poll_loop events (lost x ∷ rest) s wf alive = refl
  view-poll_loop events (deliver now wall e ∷ rest) s wf (here, later) =
      let s' = polled now wall rest s in
      let m = is_incr_send_event e s.pending_incr_sends in
      let wf' = same s s' refl refl wf in
      let t = (route O e events m s').1 in
      rw (route_value O A e events s' m wf' refl) (
        view-poll_loop (if is_deferred e then events ++ e ∷ [] else events) rest t
          ((route-Keeps O A e events m).at s' wf') later
        ∙ ap (λ v. acked_times (acknowledgement_count w p rest) v)
            (view-route e events s' m wf' here refl)
        ∙ acked_if (is_acknowledgement w p e) (acknowledgement_count w p rest) (view w p s))
