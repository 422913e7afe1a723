-- ===== src/SyncLoop/Spares.antt =====
-- What a transfer is to the handlers of sync_loop_inner.py that are not about it: content from the
-- remote side, local changes and the requests of other windows leave its entry in the dict and the
-- values written to its property alone.
use pclipsync.Base.{
  ℕ, ◌≡◌, refl, ap, ◌∙◌, Bool, true, false, Option, none, some, List, [], ◌∷◌, ◌++◌, ◌==◌, arith,
  if◌then◌else◌,
}
use pclipsync.Base.Dict.{key_eq, get, get-put}
use pclipsync.Exec.{modify, ◌>>=◌}
use pclipsync.X11.{
  Bytes, Atom, WindowId, SelectionRequest, Event, selection_request, set_selection_owner_notify,
  other_event, Request, change_property, send_event, flush, Outside,
}
use pclipsync.State.{IncrSendState, ClipboardState, Accepts, perform}
use pclipsync.State.Keeps.{Keeps, Keeps-pure, Keeps-if, Keeps-bind, Keeps-continue}
use pclipsync.Incr.View.Spared.{view-cleanup_incr_sends_on_ownership_loss}
use pclipsync.Incr.Cleanup.{IsWellFormed, cleanup_incr_sends_on_ownership_loss_lem}
use pclipsync.Selection.WellFormed.{IsWellFormed-Passive}
use pclipsync.Incr.{is_for_selection, initiate_incr_send, reply}
use pclipsync.Incr.Initiate.{initiate_incr_send_lem}
use pclipsync.Selection.{
  handle_targets_request, handle_content_request, handle_timestamp_request, send_selection_notify,
  answer_content, handle_selection_request,
}
use pclipsync.Incr.Chunks.{writes}
use pclipsync.Incr.View.{View, view}
use pclipsync.Sync.{discard, handle_clipboard_change, handle_incoming_content}
use pclipsync.Wait.{is_deferred}
use pclipsync.SyncLoop.{lose_ownership, handle_event}
use pclipsync.Sync.Handles.{Handles, handle_clipboard_change-Keeps, handle_incoming_content-Keeps}
use pclipsync.Sync.Quiet.{is_passive}
use pclipsync.Sync.Passive.{Passive}

-- The window is not the own one, and the transfer to it is seen like this.
pub record IsSeen (w p : ℕ) (v : View) (s : ClipboardState) : Type 0 where
  pub not_own : s.window == w ≡ false
  pub seen : view w p s ≡ v

writes-passive :
    (w p : ℕ) (r : Request) (h : List Request)
    → is_passive r ≡ true
    → writes w p (r ∷ h) ≡ writes w p h
unfolding writes
writes-passive w p (change_property v a t n l) h e = cc
writes-passive w p _ h e = refl

writes-other :
    (w p v a t n : ℕ) (l : List ℕ) (h : List Request)
    → v == w ≡ false
    → writes w p (change_property v a t n l ∷ h) ≡ writes w p h
unfolding writes
writes-other w p v a t n l h e = ground (arith, e)

pub IsSeen-Passive : (w p : ℕ) (v : View) → Passive (IsSeen w p v)
IsSeen-Passive w p v = record {
  quiet = record {
    at_asked = λ r s e q. record {
      not_own = q.not_own;
      seen =
          (λ i. (get (w, p) s.pending_incr_sends, writes-passive w p r s.display.history e i))
          ∙ q.seen;
    };
    at_own_property = λ a t n l s q. record {
      not_own = q.not_own;
      seen =
          (λ i. (
            get (w, p) s.pending_incr_sends,
            writes-other w p s.window a t n l s.display.history q.not_own i,
          ))
          ∙ q.seen;
    };
    unqueued = record {
      at_poll = λ now wall rest s q. record { not_own = q.not_own; seen = q.seen };
      at_lost = λ rest s q. record { not_own = q.not_own; seen = q.seen };
      at_defer = λ e s q. deferred (is_deferred e) e s q;
    };
    at_x11_event = λ b s q. record { not_own = q.not_own; seen = q.seen };
  };
  at_owned = λ l s q. record { not_own = q.not_own; seen = q.seen };
  at_time = λ t s q. record { not_own = q.not_own; seen = q.seen };
}
  where
    deferred :
        (b : Bool) (e : Event) (s : ClipboardState)
        → IsSeen w p v s
        → IsSeen w p v (if b then record s { deferred_events = s.deferred_events ++ e ∷ [] } else s)
    deferred true e s q = record { not_own = q.not_own; seen = q.seen }
    deferred false e s q = q

IsSeen-Handles : (w p : ℕ) (v : View) → Handles (IsSeen w p v)
unfolding writes
IsSeen-Handles w p v = record {
  passive = IsSeen-Passive w p v;
  at_write = λ bytes s q. record { not_own = q.not_own; seen = q.seen };
  at_hashes = λ k s q. record { not_own = q.not_own; seen = q.seen };
  at_content = λ c s q. record { not_own = q.not_own; seen = q.seen };
}

module _ (O : Outside) (w p : ℕ) (v : View) where
  abbrev Q : Passive (IsSeen w p v)
  Q = IsSeen-Passive w p v

  -- A request that is not a value for the property.
  asks :
      (r : Request)
      → ((h : List Request) → writes w p (r ∷ h) ≡ writes w p h)
      → Keeps (IsSeen w p v) (perform O r)
  asks r e = record {
    at = λ s q. record {
      not_own = q.not_own;
      seen = (λ i. (get (w, p) s.pending_incr_sends, e s.display.history i)) ∙ q.seen;
    };
  }

  -- A change of the state that is not one of its transfers.
  untouched :
      (f : ClipboardState → ClipboardState)
      → ((s : ClipboardState) → (f s).window ≡ s.window)
      → ((s : ClipboardState) → view w p (f s) ≡ view w p s)
      → Keeps (IsSeen w p v) (modify f)
  untouched f same e = record {
    at = λ s q. record { not_own = ap (λ x. x == w) (same s) ∙ q.not_own; seen = e s ∙ q.seen };
  }

-- A request under another key.
module _ (O : Outside) (A : Accepts O) (w p : ℕ) (v : View) (e : SelectionRequest)
    (ne : key_eq (e.requestor, e.property) (w, p) ≡ false) where
  writes-ne :
      (t n : ℕ) (l : List ℕ) (h : List Request)
      → writes w p (change_property e.requestor e.property t n l ∷ h) ≡ writes w p h
  unfolding writes
  writes-ne t n l h = rw ne

  answers-Keeps :
      (t n : ℕ) (l : List ℕ)
      → Keeps (IsSeen w p v) (perform O (change_property e.requestor e.property t n l))
  answers-Keeps t n l =
      asks O w p v (change_property e.requestor e.property t n l) (writes-ne t n l)

  initiate-Keeps :
      (c : Bytes) (incr_atom : Atom) → Keeps (IsSeen w p v) (initiate_incr_send O e c incr_atom)
  unfolding writes
  initiate-Keeps c incr_atom = record {
    at = λ s q.
        rw (initiate_incr_send_lem O A e c incr_atom s)
          (record { not_own = q.not_own; seen = rw get-put (rw ne q.seen) });
  }

  notify-Keeps : (e' : SelectionRequest) → Keeps (IsSeen w p v) (send_selection_notify O e')
  unfolding send_selection_notify writes
  notify-Keeps e' =
      Keeps-bind _ _ (asks O w p v (send_event e'.requestor (reply e' e'.property)) (λ h. refl))
        λ _. asks O w p v flush (λ h. refl)

  targets-Keeps : Keeps (IsSeen w p v) (handle_targets_request O e)
  unfolding handle_targets_request
  targets-Keeps = answers-Keeps _ _ _

  content-Keeps :
      (c : Bytes) (incr_atom : Atom) → Keeps (IsSeen w p v) (answer_content O e c incr_atom)
  unfolding answer_content handle_content_request
  content-Keeps c incr_atom =
      search (Keeps-pure, Keeps-if, Keeps-bind, initiate-Keeps, answers-Keeps, notify-Keeps) depth 8

  timestamp-Keeps :
      (t : Option ℕ)
      → Keeps (IsSeen w p v) (do e' ← handle_timestamp_request O e t; send_selection_notify O e')
  unfolding handle_timestamp_request
  timestamp-Keeps none = search (Keeps-pure, Keeps-bind, notify-Keeps)
  timestamp-Keeps (some t) = search (Keeps-pure, Keeps-bind, answers-Keeps, notify-Keeps)

  pub handle_selection_request-IsSeen :
      (c : Bytes) (t : Option ℕ) (incr_atom : Atom)
      → Keeps (IsSeen w p v) (handle_selection_request O e c t incr_atom)
  unfolding handle_selection_request
  handle_selection_request-IsSeen c t incr_atom =
      search (Keeps-if, Keeps-bind, targets-Keeps, content-Keeps, timestamp-Keeps, notify-Keeps)
        depth 8

-- Events that leave the transfer alone: a request under another key, a change of the owner of a
-- selection that the transfer is not of, or to the own window, and events that mean nothing.
pub data Spared (w p : ℕ) (s : ClipboardState) : Event → Type 0 where
  request :
      (e : SelectionRequest)
      → key_eq (e.requestor, e.property) (w, p) ≡ false
      → Spared w p s (selection_request e)
  own_change :
      (a : Atom) (owner : WindowId)
      → owner == s.window ≡ true
      → Spared w p s (set_selection_owner_notify a owner)
  other_change :
      (a : Atom) (owner : WindowId)
      → owner == s.window ≡ false
      → ((st : IncrSendState)
          → get (w, p) s.pending_incr_sends ≡ some st
          → is_for_selection a (w, p) st ≡ false)
      → Spared w p s (set_selection_owner_notify a owner)
  other : Spared w p s other_event

module _ (O : Outside) (A : Accepts O) (w p : ℕ) (v : View) where
  pub handle_incoming_content-IsSeen :
      (c : Bytes) → Keeps (IsSeen w p v) (handle_incoming_content O c)
  handle_incoming_content-IsSeen c = handle_incoming_content-Keeps O (IsSeen-Handles w p v) c

  lose_ownership-IsSeen :
      (a : Atom) (s : ClipboardState)
      → IsWellFormed s
      → ((st : IncrSendState)
          → get (w, p) s.pending_incr_sends ≡ some st
          → is_for_selection a (w, p) st ≡ false)
      → IsSeen w p v s
      → IsSeen w p v (lose_ownership O a s).1
  unfolding lose_ownership
  lose_ownership-IsSeen a s wf ne q =
      let u : ClipboardState = record s { owned_selections = discard a s.owned_selections } in
      let wf' = IsWellFormed-Passive.at_owned (discard a s.owned_selections) s wf in
      let cancels = cleanup_incr_sends_on_ownership_loss_lem O A u wf' a in
      let (same, own) = view-cleanup_incr_sends_on_ownership_loss O A w p u wf' a ne in
      rw cancels.returned
        (record { not_own = ap (λ x. x == w) own ∙ q.not_own; seen = same ∙ q.seen })

  pub handle_event-IsSeen :
      (s : ClipboardState) {e : Event}
      → IsWellFormed s
      → Spared w p s e
      → IsSeen w p v s
      → IsSeen w p v (handle_event O e s).1
  unfolding handle_event
  handle_event-IsSeen s wf (request e ne) q =
      (handle_selection_request-IsSeen O A w p v e ne s.current_content s.acquisition_time
          s.incr_atom).at
        s q
  handle_event-IsSeen s wf (own_change a owner same) q =
      rw same ((handle_clipboard_change-Keeps O (IsSeen-Handles w p v) a).at s q)
  handle_event-IsSeen s wf (other_change a owner ne others) q =
      let t = (lose_ownership O a s).1 in
      rw ne (
        Keeps-continue {P = IsSeen w p v} (lose_ownership O a s).0
          (λ _. handle_clipboard_change O a) t
          (λ _. handle_clipboard_change-Keeps O (IsSeen-Handles w p v) a)
          (lose_ownership-IsSeen a s wf others q))
  handle_event-IsSeen s wf other q = q
