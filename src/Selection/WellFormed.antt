-- ===== src/Selection/WellFormed.antt =====
-- Selection requests and the event queue (clipboard_selection_request.py and
-- clipboard_selection_process.py) keep the transfers well formed.
use pclipsync.Base.{
  ℕ, ◌≡◌, refl, sym, ap, subst, ◌∙◌, Bool, true, false, Option, none, some, List, [], ◌∷◌, ◌++◌,
  ltb, if◌then◌else◌,
}
use pclipsync.Base.Dict.{NodupKeys, count_first}
use pclipsync.Exec.{ok, raise, modify}
use pclipsync.X11.{
  change_property, Bytes, Atom, WindowId, Event, SelectionRequest, Request, change_attributes,
  Outside, Poll, deliver, idle, lost,
}
use pclipsync.State.{ClipboardState, asked, perform, Accepts}
use pclipsync.State.Keeps.{Keeps, Keeps-pure, Keeps-answer, Keeps-if, Keeps-catch, Keeps-bind}
use pclipsync.Wait.{is_deferred, polled, polled_lost}
use pclipsync.Incr.{
  EventType, is_incr_send_event, cleanup_stale_incr_sends, cleanup_incr_sends_on_ownership_loss,
  initiate_incr_send,
}
use pclipsync.Incr.Subscribe.{subscribed}
use pclipsync.Incr.Cleanup.{
  IsKeyed, IsWellFormed, cleanup_stale_incr_sends_lem, cleanup_incr_sends_on_ownership_loss_lem,
}
use pclipsync.Incr.WellFormed.{handle_incr_send_event-IsWellFormed}
use pclipsync.Incr.Initiate.{initiate_incr_send-IsWellFormed}
use pclipsync.Selection.{
  handle_targets_request, handle_content_request, handle_timestamp_request, send_selection_notify,
  answer_content, handle_selection_request, route, poll_loop, process_pending_events,
}
use pclipsync.Sync.Quiet.{is_passive}
use pclipsync.Sync.Passive.{Passive}

-- A request that sets no event mask.
abbrev pub keeps_masks : Request → Bool
keeps_masks (change_attributes w mask) = false
keeps_masks _ = true

subscribed-keeps_masks :
    (u : WindowId) (r : Request) (h : List Request)
    → keeps_masks r ≡ true
    → subscribed u (r ∷ h) ≡ subscribed u h
unfolding subscribed
subscribed-keeps_masks u (change_attributes w mask) h e = cc
subscribed-keeps_masks u _ h e = refl

passive-keeps_masks : (r : Request) → is_passive r ≡ true → keeps_masks r ≡ true
passive-keeps_masks (change_attributes w mask) e = e
passive-keeps_masks _ e = refl

-- Only the transfers and the requests matter.
alike :
    (s : ClipboardState) (t : ClipboardState)
    → s.pending_incr_sends ≡ t.pending_incr_sends
    → ((u : WindowId) → subscribed u t.display.history ≡ subscribed u s.display.history)
    → IsWellFormed s
    → IsWellFormed t
alike s t e h wf = record {
  nodup = subst (λ d. NodupKeys d) e wf.nodup;
  keyed = subst (λ d. IsKeyed d) e wf.keyed;
  tracked = record {
    tracks = λ u. h u ∙ wf.tracked.tracks u ∙ ap (λ d. ltb 0 (count_first u d)) e;
  };
}

pub asked-IsWellFormed :
    (r : Request) (s : ClipboardState)
    → keeps_masks r ≡ true
    → IsWellFormed s
    → IsWellFormed (asked r s)
asked-IsWellFormed r s e =
    alike s (asked r s) refl (λ u. subscribed-keeps_masks u r s.display.history e)

pub same :
    (s t : ClipboardState)
    → s.pending_incr_sends ≡ t.pending_incr_sends
    → s.display.history ≡ t.display.history
    → IsWellFormed s
    → IsWellFormed t
same s t e h = alike s t e (λ u. ap (subscribed u) (sym h))

deferred :
    (b : Bool) (e : Event) (s : ClipboardState)
    → IsWellFormed s
    → IsWellFormed (if b then record s { deferred_events = s.deferred_events ++ e ∷ [] } else s)
deferred true e s wf = same s _ refl refl wf
deferred false e s wf = wf

-- A change of the state that leaves the transfers and the requests alone.
pub untouched :
    (f : ClipboardState → ClipboardState)
    → ((s : ClipboardState) → s.pending_incr_sends ≡ (f s).pending_incr_sends)
    → ((s : ClipboardState) → s.display.history ≡ (f s).display.history)
    → Keeps IsWellFormed (modify f)
untouched f e h = record { at = λ s. same s (f s) (e s) (h s) }

pub IsWellFormed-Passive : Passive IsWellFormed
IsWellFormed-Passive = record {
  quiet = record {
    at_asked = λ r s e. asked-IsWellFormed r s (passive-keeps_masks r e);
    at_own_property = λ a b n l s. asked-IsWellFormed (change_property s.window a b n l) s refl;
    unqueued = record {
      at_poll = λ now wall rest s. same s _ refl refl;
      at_lost = λ rest s. same s _ refl refl;
      at_defer = λ e s. deferred (is_deferred e) e s;
    };
    at_x11_event = λ b s. same s _ refl refl;
  };
  at_owned = λ l s. same s _ refl refl;
  at_time = λ t s. same s _ refl refl;
}

module _ (O : Outside) (A : Accepts O) where
  pub asks : (r : Request) → keeps_masks r ≡ true → Keeps IsWellFormed (perform O r)
  asks r e = record { at = λ s. asked-IsWellFormed r s e }

  stale-Keeps : Keeps IsWellFormed (cleanup_stale_incr_sends O)
  stale-Keeps = record { at = λ s wf. (cleanup_stale_incr_sends_lem O A s wf).well_formed }

  pub loss-Keeps : (a : Atom) → Keeps IsWellFormed (cleanup_incr_sends_on_ownership_loss O a)
  loss-Keeps a = record {
    at = λ s wf. (cleanup_incr_sends_on_ownership_loss_lem O A s wf a).well_formed;
  }

  initiate-Keeps :
      (e : SelectionRequest) (content : Bytes) (incr_atom : Atom)
      → Keeps IsWellFormed (initiate_incr_send O e content incr_atom)
  initiate-Keeps e content incr_atom = record {
    at = initiate_incr_send-IsWellFormed O A e content incr_atom;
  }

  ruleset rules = (Keeps-pure, Keeps-answer, Keeps-if, Keeps-catch, Keeps-bind, asks, refl)

  notify-Keeps : (e : SelectionRequest) → Keeps IsWellFormed (send_selection_notify O e)
  unfolding send_selection_notify
  notify-Keeps e = search rules

  timestamp-Keeps :
      (e : SelectionRequest) (time : Option ℕ)
      → Keeps IsWellFormed (handle_timestamp_request O e time)
  unfolding handle_timestamp_request
  timestamp-Keeps e none = search rules
  timestamp-Keeps e (some time) = search rules

  answer-Keeps :
      (e : SelectionRequest) (content : Bytes) (incr_atom : Atom)
      → Keeps IsWellFormed (answer_content O e content incr_atom)
  unfolding answer_content handle_content_request
  answer-Keeps e content incr_atom = search (rules, initiate-Keeps, notify-Keeps) depth 12

  pub selection_request-Keeps :
      (e : SelectionRequest) (content : Bytes) (time : Option ℕ) (incr_atom : Atom)
      → Keeps IsWellFormed (handle_selection_request O e content time incr_atom)
  unfolding handle_selection_request handle_targets_request
  selection_request-Keeps e content time incr_atom =
      search (rules, answer-Keeps, timestamp-Keeps, notify-Keeps) depth 12

  pub route-Keeps :
      (e : Event) (events : List Event) (m : Bool × Option EventType)
      → Keeps IsWellFormed (route O e events m)
  unfolding route
  route-Keeps e events (true, some event_type) =
      Keeps-bind _ _ (handle_incr_send_event-IsWellFormed O A e event_type) λ _. Keeps-pure events
  route-Keeps e events (true, none) = search rules
  route-Keeps e events (false, m) = search rules

  polled-Keeps :
      (now wall : ℕ) (rest : List Poll) → Keeps IsWellFormed (modify (polled now wall rest))
  polled-Keeps now wall rest = record { at = λ s. same s _ refl refl }

  lost-Keeps : (rest : List Poll) → Keeps IsWellFormed (modify (polled_lost rest))
  lost-Keeps rest = record { at = λ s. same s _ refl refl }

  pub poll_loop-Keeps :
      (events : List Event) (polls : List Poll) → Keeps IsWellFormed (poll_loop O events polls)
  unfolding poll_loop
  poll_loop-Keeps events [] = Keeps-pure events
  poll_loop-Keeps events (deliver now wall e ∷ rest) =
      Keeps-bind _ _ (polled-Keeps now wall rest) λ _.
        Keeps-bind _ _ (Keeps-answer (λ s. ok s.pending_incr_sends)) λ pending.
          Keeps-bind _ _ (route-Keeps e events (is_incr_send_event e pending))
            λ events'. poll_loop-Keeps events' rest
  poll_loop-Keeps events (idle now wall readable ∷ rest) =
      Keeps-bind _ _ (polled-Keeps now wall rest) λ _. Keeps-pure events
  poll_loop-Keeps events (lost x ∷ rest) =
      Keeps-bind _ _ (lost-Keeps rest) λ _. Keeps-answer (λ s. raise x)

  pub pending_events-Keeps : Keeps IsWellFormed (process_pending_events O)
  unfolding process_pending_events
  pending_events-Keeps = Keeps-bind _ _ stale-Keeps λ _.
      Keeps-bind _ _ (Keeps-answer (λ s. ok s.deferred_events)) λ events.
        Keeps-bind (modify (λ s. record s { deferred_events = [] })) _ unchanged λ _.
          Keeps-bind _ _ (Keeps-answer (λ s. ok s.display.polls))
            λ polls. poll_loop-Keeps events polls
    where
      unchanged : Keeps IsWellFormed (modify (λ s. record s { deferred_events = [] }))
      unchanged = untouched _ (λ s. refl) (λ s. refl)
