-- ===== src/Incr.antt =====
-- src/pclipsync/clipboard_selection_incr_*.py: sending large content by the INCR protocol. The
-- transfers in progress are the dict `pending_incr_sends`, keyed by requestor window and property.
pub mod Chunks
pub mod Subscribe
pub mod Cleanup
pub mod WellFormed
pub mod Initiate
pub mod Transfer
pub mod View
use pclipsync.Base.{
  ℕ, ◌+◌, ◌-◌, ◌*◌, ◌/◌, ◌≡◌, Bool, true, false, ◌&&◌, not, Option, none, some, List, [], ◌∷◌, ltb,
  leb, ◌==◌, if◌then◌else◌, length, take, drop, contains, min,
}
use pclipsync.Base.Dict.{Key, key_eq, Dict, get, put, erase, count_first}
use pclipsync.Exec.{
  Exn, other_error, Result, ok, raise, is_exception, Exec, pure, throw, gets, modify, catch, ◌>>=◌,
  ◌>>◌,
}
use pclipsync.X11.{
  Bytes, Atom, WindowId, SelectionNotify, SelectionRequest, PropertyState, new_value, deleted,
  Event, property_notify, destroy_notify, EventMask, no_events, property_and_structure, Request,
  change_attributes, change_property, send_event, flush, Outside,
}
use pclipsync.State.{
  IncrSendState, ClipboardState, Io, incr_chunk_size, incr_send_timeout, perform, with_pending,
}

abbrev pub Pending : Type 0
Pending = Dict IncrSendState

-- The second part of what `is_incr_send_event` returns.
pub data EventType : Type 0 where
  property_delete destroy : EventType

-- `PropertyNotify` with `PropertyDelete`, for a transfer of the dict.
unfoldable pub is_property_delete_match : Event → Pending → Bool
is_property_delete_match (property_notify e) pending = elim e.state [
  | new_value ↦ false
  | deleted ↦ elim (get (e.window, e.atom) pending) [ none ↦ false | some _ ↦ true ]
]
is_property_delete_match _ pending = false

-- `{key[0] for key in pending_incr_sends}`
unfoldable pub requestor_ids : Pending → List WindowId
requestor_ids [] = []
requestor_ids (((w, p), _) ∷ d) = w ∷ requestor_ids d

unfoldable pub is_destroy_match : Event → Pending → Bool
is_destroy_match (destroy_notify w) pending = contains w (requestor_ids pending)
is_destroy_match _ pending = false

unfoldable pub is_incr_send_event : Event → Pending → Bool × Option EventType
unfolding is_property_delete_match is_destroy_match requestor_ids
is_incr_send_event event [] = (false, none)
is_incr_send_event event (entry ∷ pending) =
    if is_property_delete_match event (entry ∷ pending)
    then (true, some property_delete)
    else if is_destroy_match event (entry ∷ pending)
    then (true, some destroy)
    else (false, none)

abbrev pub set_pending : Key → IncrSendState → Io (Unit {0})
set_pending key st = modify (λ s. with_pending (put key st s.pending_incr_sends) s)

module _ (O : Outside) where
  -- 90% of what fits a request, whose length is given in units of four bytes.
  unfoldable pub get_max_property_size : ℕ
  get_max_property_size = O.max_request_length * 4 * 9 / 10

  unfoldable pub needs_incr_transfer : Bytes → Bool
  unfolding get_max_property_size
  needs_incr_transfer content = ltb get_max_property_size (length content)

  unfoldable pub unsubscribe_requestor_events : WindowId → Io (Unit {0})
  unsubscribe_requestor_events requestor = do
    perform O (change_attributes requestor no_events)
    perform O flush

  -- The event mask is cleared if this is the last transfer for the window.
  unfoldable pub unsubscribe_incr_requestor : IncrSendState → Key → Io (Unit {0})
  unfolding unsubscribe_requestor_events
  unsubscribe_incr_requestor st (w, p) = do
    count ← gets (λ s. count_first w s.pending_incr_sends)
    if count == 1 then unsubscribe_requestor_events st.requestor else pure tt
    modify (λ s. with_pending (erase (w, p) s.pending_incr_sends) s)

  -- Writes a chunk, flushes, and only then updates the object that the dict holds under the key.
  unfoldable pub write_chunk : Key → IncrSendState → Bytes → IncrSendState → Io (Unit {0})
  write_chunk key st chunk st' = do
    perform O (change_property st.requestor st.property_atom st.target_atom 8 chunk)
    perform O flush
    set_pending key st'

  unfoldable pub send_incr_chunk : IncrSendState → Key → Io (Unit {0})
  send_incr_chunk st key =
      let content_length = length st.content in
      let chunk_end = min (st.offset + incr_chunk_size) content_length in
      let chunk = take (chunk_end - st.offset) (drop st.offset st.content) in
      if leb content_length st.offset
      then write_chunk key st [] (record st { completion_sent = true })
      else write_chunk key st chunk (record st { offset = chunk_end })

  unfoldable pub acknowledge : Option IncrSendState → Key → Io (Unit {0})
  acknowledge none key = pure tt
  acknowledge (some st) key =
      if st.completion_sent then unsubscribe_incr_requestor st key else send_incr_chunk st key

  unfoldable pub handle_property_delete : WindowId → Atom → Io (Unit {0})
  unfolding acknowledge
  handle_property_delete w a = do
    found ← gets (λ s. get (w, a) s.pending_incr_sends)
    acknowledge found (w, a)

  unfoldable pub cancel : Option IncrSendState → Key → Io (Unit {0})
  cancel none key = throw other_error
  cancel (some st) key = unsubscribe_incr_requestor st key

  -- `for key in keys: unsubscribe_incr_requestor(display, pending[key], key, pending)`
  unfoldable pub cancel_all : List Key → Io (Unit {0})
  unfolding cancel
  cancel_all [] = pure tt
  cancel_all (key ∷ keys) = do
    found ← gets (λ s. get key s.pending_incr_sends)
    cancel found key
    cancel_all keys

-- The keys whose transfer satisfies a test, in the order of the dict.
abbrev pub keys_where : (Key → IncrSendState → Bool) → Pending → List Key
keys_where test [] = []
keys_where test ((key, st) ∷ d) =
    let rest = keys_where test d in if test key st then key ∷ rest else rest

abbrev pub is_requestor : WindowId → Key → IncrSendState → Bool
is_requestor w (a, p) st = a == w

-- `current_time - state.start_time > INCR_SEND_TIMEOUT`
abbrev pub is_stale : ℕ → Key → IncrSendState → Bool
is_stale current_time key st = ltb incr_send_timeout (current_time - st.start_time)

abbrev pub is_for_selection : Atom → Key → IncrSendState → Bool
is_for_selection atom key st = st.selection_atom == atom

-- `SelectionNotify` in answer to a request, with the property given.
abbrev pub reply : SelectionRequest → Atom → SelectionNotify
reply e property = record {
  time = e.time;
  requestor = e.requestor;
  selection = e.selection;
  target = e.target;
  property = property;
}

abbrev pub new_transfer : SelectionRequest → Bytes → ℕ → IncrSendState
new_transfer e content time = record {
  requestor = e.requestor;
  property_atom = e.property;
  target_atom = e.target;
  selection_atom = e.selection;
  content = content;
  offset = 0;
  start_time = time;
  completion_sent = false;
}

module _ (O : Outside) where
  -- `_handle_destroy_event`
  unfoldable pub handle_destroy_event : WindowId → Io (Unit {0})
  unfolding cancel_all
  handle_destroy_event w = do
    keys ← gets (λ s. keys_where (is_requestor w) s.pending_incr_sends)
    cancel_all O keys

  unfoldable pub handle_incr_send_event : Event → EventType → Io (Unit {0})
  unfolding handle_destroy_event handle_property_delete
  handle_incr_send_event (destroy_notify w) destroy = handle_destroy_event w
  handle_incr_send_event (property_notify e) destroy = handle_destroy_event e.window
  handle_incr_send_event (property_notify e) property_delete =
      handle_property_delete O e.window e.atom
  handle_incr_send_event event event_type = throw other_error

  -- The snapshot `list(pending.items())`, cancelled one by one.
  unfoldable pub cleanup_stale_incr_sends : Io (Unit {0})
  unfolding cancel_all
  cleanup_stale_incr_sends = do
    keys ← gets (λ s. keys_where (is_stale s.display.wall) s.pending_incr_sends)
    cancel_all O keys

  unfoldable pub cleanup_incr_sends_on_ownership_loss : Atom → Io (Unit {0})
  unfolding cancel_all
  cleanup_incr_sends_on_ownership_loss atom = do
    keys ← gets (λ s. keys_where (is_for_selection atom) s.pending_incr_sends)
    cancel_all O keys

  unfoldable pub refuse_selection_request : SelectionRequest → Io (Unit {0})
  refuse_selection_request e = do
    perform O (send_event e.requestor (reply e O.none_atom))
    perform O flush

  unfoldable pub write_incr_and_notify : SelectionRequest → Atom → Bytes → Io (Unit {0})
  write_incr_and_notify e incr_atom content = do
    perform O (change_property e.requestor e.property incr_atom 32 (length content ∷ []))
    time ← gets (λ s. s.display.wall)
    set_pending (e.requestor, e.property) (new_transfer e content time)
    perform O (send_event e.requestor (reply e e.property))
    perform O flush

  -- `except Exception: unsubscribe, refuse, raise`
  unfoldable pub give_up : SelectionRequest → Exn → Io (Unit {0})
  unfolding unsubscribe_requestor_events refuse_selection_request
  give_up e x =
      if is_exception x
      then (do unsubscribe_requestor_events O e.requestor; refuse_selection_request e; throw x)
      else throw x

  unfoldable pub initiate_incr_send : SelectionRequest → Bytes → Atom → Io (Unit {0})
  unfolding write_incr_and_notify give_up
  initiate_incr_send e content incr_atom = do
    perform O (change_attributes e.requestor property_and_structure)
    catch (write_incr_and_notify e incr_atom content) (give_up e)
