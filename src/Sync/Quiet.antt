-- ===== src/Sync/Quiet.antt =====
-- Reading the clipboard and taking a selection (clipboard_io.py, clipboard_events.py and
-- selection_utils.py) keep what speaks of none of what they change.
use pclipsync.Base.{ℕ, zero, suc, ◌≡◌, refl, Bool, true, false, Option, none, some, List, [], ◌∷◌}
use pclipsync.Exec.{Exn, ok, pure, modify, ◌>>=◌, ◌>>◌}
use pclipsync.X11.{
  Bytes, Atom, WindowId, Event, Property, Request, write, change_attributes, change_property, flush,
  Outside,
}
use pclipsync.State.{ClipboardState, Io, asked, perform, selection_owner, full_property}
use pclipsync.State.Keeps.{
  Keeps, Keeps-pure, Keeps-answer, Keeps-if, Keeps-catch, Keeps-continue, Keeps-bind,
}
use pclipsync.Wait.Laws.{Unqueued, wait_loop_keeps}
use pclipsync.Wait.{
  Target, wait_for_event_type, wait_for_property_notify, get_server_timestamp, any_property_notify,
  timestamp_timeout, event_time,
}
use pclipsync.ClipboardIo.{
  Step, more, done, incr_chunk_timeout, or_else, read_property, read_selection_property,
  read_chunk_property, next_chunk, chunk_loop, signal_deferred, handle_incr_transfer,
  selection_arrived, wait_for_selection, request_selection, read_clipboard_content,
}
use pclipsync.Sync.{set_clipboard_content}

-- Requests that neither write to the socket, nor set an event mask or a property.
abbrev pub is_passive : Request → Bool
is_passive (write bytes) = false
is_passive (change_property w property type width value) = false
is_passive (change_attributes w mask) = false
is_passive _ = true

-- What does not depend on passive requests or properties of the own window, nor on the queue of
-- events.
pub record Quiet (P : ClipboardState → Type 0) : Type 0 where
  pub at_asked : (r : Request) (s : ClipboardState) → is_passive r ≡ true → P s → P (asked r s)
  pub at_own_property :
      (property type : Atom) (width : ℕ) (value : List ℕ) (s : ClipboardState)
      → P s
      → P (asked (change_property s.window property type width value) s)
  pub unqueued : Unqueued P
  pub at_x11_event : (b : Bool) (s : ClipboardState) → P s → P (record s { x11_event = b })

module _ (O : Outside) {P : ClipboardState → Type 0} (Q : Quiet P) where
  pub perform-Keeps : (r : Request) → is_passive r ≡ true → Keeps P (perform O r)
  perform-Keeps r e = record { at = λ s. Q.at_asked r s e }

  pub selection_owner-Keeps : (a : Atom) → Keeps P (selection_owner O a)
  selection_owner-Keeps a = record { at = λ s. Q.at_asked _ s refl }

  pub full_property-Keeps : (w : WindowId) (a : Atom) → Keeps P (full_property O w a)
  full_property-Keeps w a = record { at = λ s. Q.at_asked _ s refl }

  wait_for_event_type-Keeps : (t : Target) (timeout : ℕ) → Keeps P (wait_for_event_type t timeout)
  unfolding wait_for_event_type
  wait_for_event_type-Keeps t timeout = record {
    at = λ s. wait_loop_keeps Q.unqueued _ _ s.display.polls s;
  }

  wait_for_property_notify-Keeps :
      (w : WindowId) (a : Atom) (timeout : ℕ) → Keeps P (wait_for_property_notify w a timeout)
  unfolding wait_for_property_notify
  wait_for_property_notify-Keeps w a timeout = record {
    at = λ s. wait_loop_keeps Q.unqueued _ _ s.display.polls s;
  }

  ruleset passive_rules = (
    Keeps-pure, Keeps-answer, Keeps-if, Keeps-catch, Keeps-bind, perform-Keeps,
    selection_owner-Keeps, full_property-Keeps, wait_for_event_type-Keeps,
    wait_for_property_notify-Keeps, refl,
  )

  or_else-Keeps : {A : Type 0} (a : A) (x : Exn) → Keeps P (or_else a x)
  or_else-Keeps a x = search passive_rules

  pub set_clipboard_content-Keeps : (a : Atom) → Keeps P (set_clipboard_content O a)
  unfolding set_clipboard_content
  set_clipboard_content-Keeps a = search (passive_rules, or_else-Keeps) depth 12

  read_property-Keeps :
      (prop_atom incr_atom : Atom) (p : Option Property)
      → Keeps P (read_property O prop_atom incr_atom p)
  unfolding read_property
  read_property-Keeps prop_atom incr_atom none = search passive_rules
  read_property-Keeps prop_atom incr_atom (some p) = search passive_rules depth 12

  read_selection_property-Keeps :
      (prop_atom incr_atom : Atom) → Keeps P (read_selection_property O prop_atom incr_atom)
  unfolding read_selection_property
  read_selection_property-Keeps prop_atom incr_atom =
      search (passive_rules, or_else-Keeps, read_property-Keeps) depth 12

  read_chunk_property-Keeps : (prop_atom : Atom) → Keeps P (read_chunk_property O prop_atom)
  unfolding read_chunk_property
  read_chunk_property-Keeps prop_atom = search (passive_rules, or_else-Keeps) depth 12

  next_chunk-Keeps :
      (prop_atom : Atom) (buf : Bytes) (e : Option Event) → Keeps P (next_chunk O prop_atom buf e)
  unfolding next_chunk
  next_chunk-Keeps prop_atom buf none = search passive_rules
  next_chunk-Keeps prop_atom buf (some e) =
      search (passive_rules, read_chunk_property-Keeps) depth 8

  after_step-Keeps :
      (step : Step) (again : Bytes → Io (Option Bytes))
      → ((buf : Bytes) → Keeps P (again buf))
      → Keeps P (elim step [ more buf ↦ again buf | done r ↦ pure r ])
  after_step-Keeps (more buf) again h = h buf
  after_step-Keeps (done r) again h = Keeps-pure r

  chunk_loop-Keeps :
      (fuel : ℕ) (prop_atom : Atom) (buf : Bytes) → Keeps P (chunk_loop O fuel prop_atom buf)
  unfolding chunk_loop
  chunk_loop-Keeps zero prop_atom buf = search passive_rules
  chunk_loop-Keeps (suc fuel) prop_atom buf =
      Keeps-bind _ _ (Keeps-answer (λ s. ok s.window)) λ window.
        Keeps-bind _ _ (wait_for_property_notify-Keeps window prop_atom incr_chunk_timeout) λ e.
          Keeps-bind _ _ (next_chunk-Keeps prop_atom buf e) λ step.
            after_step-Keeps step (λ b. chunk_loop O fuel prop_atom b)
              (λ b. chunk_loop-Keeps fuel prop_atom b)

  handle_incr_transfer-Keeps : (prop_atom : Atom) → Keeps P (handle_incr_transfer O prop_atom)
  unfolding handle_incr_transfer
  handle_incr_transfer-Keeps prop_atom = search (passive_rules, chunk_loop-Keeps) depth 8

  selection_arrived-Keeps :
      (prop_atom incr_atom : Atom) (e : Option Event)
      → Keeps P (selection_arrived O prop_atom incr_atom e)
  unfolding selection_arrived
  selection_arrived-Keeps prop_atom incr_atom none = search passive_rules
  selection_arrived-Keeps prop_atom incr_atom (some e) =
      search (passive_rules, read_selection_property-Keeps, handle_incr_transfer-Keeps) depth 8

  wait_for_selection-Keeps :
      (prop_atom incr_atom : Atom) → Keeps P (wait_for_selection O prop_atom incr_atom)
  unfolding wait_for_selection
  wait_for_selection-Keeps prop_atom incr_atom =
      search (passive_rules, selection_arrived-Keeps) depth 8

  signalled :
      (s : ClipboardState) (l : List Event)
      → P s
      → P (elim l [ [] ↦ s | _ ∷ _ ↦ record s { x11_event = true } ])
  signalled s [] p = p
  signalled s (e ∷ l) p = Q.at_x11_event true s p

  signal_deferred-Keeps : Keeps P (modify signal_deferred)
  signal_deferred-Keeps = record { at = λ s p. signalled s s.deferred_events p }

  pub read_clipboard_content-Keeps : (a : Atom) → Keeps P (read_clipboard_content O a)
  unfolding read_clipboard_content request_selection
  read_clipboard_content-Keeps a =
      search (passive_rules, wait_for_selection-Keeps, signal_deferred-Keeps, or_else-Keeps) depth
        14

  -- What follows the change of the property.
  abbrev answered : Io (Option ℕ)
  answered = do
    perform O flush
    event ← wait_for_event_type any_property_notify timestamp_timeout
    pure (event_time event)

  answered-Keeps : Keeps P answered
  answered-Keeps = search passive_rules depth 10

  pub get_server_timestamp-Keeps : Keeps P (get_server_timestamp O)
  unfolding get_server_timestamp
  get_server_timestamp-Keeps = record {
    at = λ s p.
        Keeps-continue {P = P} _ (λ _. answered) _ (λ _. answered-Keeps)
          (Q.at_own_property O.dummy_atom O.integer_atom 32 (0 ∷ []) s p);
  }
