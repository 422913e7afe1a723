-- ===== src/Selection/Progress/Events.antt =====
-- Which events `is_incr_send_event` of clipboard_selection_incr_events.py gives to which handler.
use pclipsync.Base.{ℕ, ◌≡◌, ◌≢◌, refl, Bool, true, false, ◌&&◌, none, some, [], ◌∷◌, arith, ◌==◌}
use pclipsync.Base.Dict.{get}
use pclipsync.X11.{
  WindowId, Atom, PropertyNotify, deleted, new_value, Event, property_notify, destroy_notify,
}
use pclipsync.Incr.{
  Pending, EventType, property_delete, destroy, is_incr_send_event, is_property_delete_match,
  is_destroy_match,
}

-- The requestor has deleted the property.
abbrev pub is_acknowledgement : WindowId → Atom → Event → Bool
is_acknowledgement w p (property_notify e) =
    e.window == w && (e.atom == p && elim e.state [ new_value ↦ false | deleted ↦ true ])
is_acknowledgement w p _ = false

abbrev pub is_end_of : WindowId → Event → Bool
is_end_of w (destroy_notify v) = w == v
is_end_of w _ = false

-- An acknowledgement that matches no transfer is of one that is not there.
pub unmatched :
    (w p : ℕ) (e : Event) (d : Pending)
    → (is_incr_send_event e d).0 ≡ false
    → is_acknowledgement w p e ≡ true
    → get (w, p) d ≡ none
unfolding is_incr_send_event is_property_delete_match get
unmatched w p (property_notify e) [] m a = refl
unmatched w p (property_notify e) (x ∷ d) m a = ground arith
unmatched w p _ d m a = cc

pub matched_delete :
    (e : PropertyNotify) (d : Pending) (event_type : EventType)
    → is_incr_send_event (property_notify e) d ≡ (true, some event_type)
    → (event_type ≡ property_delete) × (e.state ≡ deleted)
unfolding is_incr_send_event is_property_delete_match is_destroy_match
matched_delete e [] event_type m = ground arith
matched_delete e (x ∷ d) event_type m = ground arith

pub matched_destroy :
    (v : WindowId) (d : Pending) (event_type : EventType)
    → is_incr_send_event (destroy_notify v) d ≡ (true, some event_type)
    → event_type ≡ destroy
unfolding is_incr_send_event is_property_delete_match is_destroy_match
matched_destroy v [] event_type m = ground arith
matched_destroy v (x ∷ d) event_type m = ground arith

unfoldable pub is_of_transfers : Event → Bool
is_of_transfers (property_notify e) = true
is_of_transfers (destroy_notify v) = true
is_of_transfers _ = false

pub matched_type :
    (e : Event) (d : Pending) (event_type : EventType)
    → is_incr_send_event e d ≡ (true, some event_type)
    → is_of_transfers e ≡ true
unfolding is_incr_send_event is_property_delete_match is_destroy_match is_of_transfers
matched_type e [] event_type m = ground arith
matched_type (property_notify e) (x ∷ d) event_type m = refl
matched_type (destroy_notify v) (x ∷ d) event_type m = refl
matched_type _ (x ∷ d) event_type m = ground arith

pub matched_some : (e : Event) (d : Pending) → is_incr_send_event e d ≢ (true, none)
unfolding is_incr_send_event
matched_some e [] h = ground arith
matched_some e (x ∷ d) h = ground arith
