-- ===== src/Incr/View.antt =====
-- What the handlers of the clipboard_selection_incr modules do to one transfer, seen by itself: its
-- entry in the dict and the values written to its property.
pub mod Spared
use pclipsync.Base.{
  ℕ, ◌+◌, ◌-◌, ◌≡◌, refl, sym, ap, ◌∙◌, Bool, true, false, Option, none, some, List, [], ◌∷◌, ◌++◌,
  arith, leb, ◌==◌, if◌then◌else◌, Bool-cases, inl, inr, length, take, drop, min,
}
use pclipsync.Base.Dict.{
  Key, key_eq, get, get-put, get-erase_self, get-erase_ne, NodupKeys, count_first,
}
use pclipsync.Exec.{other_error, Result, ok, raise}
use pclipsync.X11.{Bytes, WindowId, Atom, Request, Outside}
use pclipsync.State.{IncrSendState, ClipboardState, Io, incr_chunk_size, Accepts}
use pclipsync.Incr.{
  Pending, unsubscribe_incr_requestor, write_chunk, send_incr_chunk, acknowledge,
  handle_property_delete, cancel, cancel_all, is_stale, handle_destroy_event,
  cleanup_stale_incr_sends,
}
use pclipsync.Incr.Chunks.{writes}
use pclipsync.Incr.Subscribe.{unsubscribe_incr_requestor_lem, unsubscribing}
use pclipsync.Incr.Cleanup.{
  IsWellFormed, Cancels, without, cleanup_stale_incr_sends_lem, handle_destroy_event_lem,
}
use pclipsync.State.Keeps.{Keeps, Keeps-pure, Keeps-answer, Keeps-bind}
use pclipsync.Incr.WellFormed.{write_chunk_lem, get-IsKeyed}

abbrev pub View : Type 0
View = Option IncrSendState × List Bytes

abbrev pub view : WindowId → Atom → ClipboardState → View
view w p s = (get (w, p) s.pending_incr_sends, writes w p s.display.history)

-- What an acknowledgement does to a transfer by itself.
unfoldable pub acked : View → View
acked (none, ws) = (none, ws)
acked (some st, ws) =
    if st.completion_sent
    then (none, ws)
    else if leb (length st.content) st.offset
    then (some (record st { completion_sent = true }), ws ++ [] ∷ [])
    else (let chunk_end = min (st.offset + incr_chunk_size) (length st.content) in
        (
          some (record st { offset = chunk_end }),
          ws ++ take (chunk_end - st.offset) (drop st.offset st.content) ∷ [],
        ))

pub writes-unsubscribing :
    (w p u : ℕ) (count : ℕ) (h : List Request) → writes w p (unsubscribing u count h) ≡ writes w p h
unfolding writes
writes-unsubscribing w p u count h = ground arith

key_eq_refl : (w p : ℕ) → key_eq (w, p) (w, p) ≡ true
key_eq_refl w p = ground arith

-- A test inside a handler.
by_test :
    (w p : ℕ) (b : Bool) (m n : Io (Unit {0})) (s : ClipboardState) (x y : View)
    → view w p (m s).1 ≡ x
    → view w p (n s).1 ≡ y
    → view w p ((if b then m else n) s).1 ≡ (if b then x else y)
by_test w p true m n s x y h k = h
by_test w p false m n s x y h k = k

module _ (O : Outside) (A : Accepts O) (w p : ℕ) where
  view-unsubscribe :
      (st : IncrSendState) (s : ClipboardState)
      → NodupKeys s.pending_incr_sends
      → view w p (unsubscribe_incr_requestor O st (w, p) s).1 ≡ (none, writes w p s.display.history)
  view-unsubscribe st s u = rw (unsubscribe_incr_requestor_lem O A st w p s) (λ i. (
    get-erase_self (w, p) s.pending_incr_sends u i,
    writes-unsubscribing w p st.requestor (count_first w s.pending_incr_sends) s.display.history i,
  ))

  view-write_chunk :
      (st st' : IncrSendState) (chunk : Bytes) (s : ClipboardState)
      → st.requestor ≡ w
      → st.property_atom ≡ p
      → view w p (write_chunk O (w, p) st chunk st' s).1
        ≡ (some st', writes w p s.display.history ++ chunk ∷ [])
  unfolding writes
  view-write_chunk st st' chunk s r q =
      let here : key_eq (st.requestor, st.property_atom) (w, p) ≡ true = ground arith in
      rw (write_chunk_lem O A (w, p) st st' chunk s, get-put) (rw (key_eq_refl w p, here))

  -- An acknowledgement of the transfer.
  acked_found :
      (o : Option IncrSendState) (s : ClipboardState)
      → get (w, p) s.pending_incr_sends ≡ o
      → IsWellFormed s
      → view w p (acknowledge O o (w, p) s).1 ≡ acked (o, writes w p s.display.history)
  unfolding acknowledge acked send_incr_chunk
  acked_found none s g wf = λ i. (g i, writes w p s.display.history)
  acked_found (some st) s g wf =
      let (r, q) = get-IsKeyed w p st s.pending_incr_sends wf.keyed g in
      by_test w p st.completion_sent _ _ s _ _ (view-unsubscribe st s wf.nodup) (
        by_test w p (leb (length st.content) st.offset) _ _ s _ _ (view-write_chunk st _ _ s r q)
          (view-write_chunk st _ _ s r q))

  pub view-handle_property_delete :
      (s : ClipboardState)
      → IsWellFormed s
      → view w p (handle_property_delete O w p s).1 ≡ acked (view w p s)
  unfolding handle_property_delete
  view-handle_property_delete s wf = acked_found (get (w, p) s.pending_incr_sends) s refl wf

-- The transfers under other keys.
module _ (O : Outside) (A : Accepts O) (w p v q : ℕ) (ne : key_eq (v, q) (w, p) ≡ false) where
  other-unsubscribe :
      (st : IncrSendState) (s : ClipboardState)
      → view w p (unsubscribe_incr_requestor O st (v, q) s).1 ≡ view w p s
  other-unsubscribe st s = rw (unsubscribe_incr_requestor_lem O A st v q s) (λ i. (
    get-erase_ne (v, q) (w, p) s.pending_incr_sends ne i,
    writes-unsubscribing w p st.requestor (count_first v s.pending_incr_sends) s.display.history i,
  ))

  other-write_chunk :
      (st st' : IncrSendState) (chunk : Bytes) (s : ClipboardState)
      → st.requestor ≡ v
      → st.property_atom ≡ q
      → view w p (write_chunk O (v, q) st chunk st' s).1 ≡ view w p s
  unfolding writes
  other-write_chunk st st' chunk s r e =
      let there : key_eq (st.requestor, st.property_atom) (w, p) ≡ false = ground (arith, ne) in
      rw (write_chunk_lem O A (v, q) st st' chunk s, get-put) (rw (ne, there))

  other_test :
      (b : Bool) (m n : Io (Unit {0})) (s : ClipboardState)
      → view w p (m s).1 ≡ view w p s
      → view w p (n s).1 ≡ view w p s
      → view w p ((if b then m else n) s).1 ≡ view w p s
  other_test true m n s h k = h
  other_test false m n s h k = k

  other_found :
      (o : Option IncrSendState) (s : ClipboardState)
      → get (v, q) s.pending_incr_sends ≡ o
      → IsWellFormed s
      → view w p (acknowledge O o (v, q) s).1 ≡ view w p s
  unfolding acknowledge send_incr_chunk
  other_found none s g wf = refl
  other_found (some st) s g wf =
      let (r, e) = get-IsKeyed v q st s.pending_incr_sends wf.keyed g in
      other_test st.completion_sent _ _ s (other-unsubscribe st s) (
        other_test (leb (length st.content) st.offset) _ _ s (other-write_chunk st _ _ s r e)
          (other-write_chunk st _ _ s r e))

  pub view-other_property_delete :
      (s : ClipboardState)
      → IsWellFormed s
      → view w p (handle_property_delete O v q s).1 ≡ view w p s
  unfolding handle_property_delete
  view-other_property_delete s wf = other_found (get (v, q) s.pending_incr_sends) s refl wf
