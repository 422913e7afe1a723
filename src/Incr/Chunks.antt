-- ===== src/Incr/Chunks.antt =====
-- One acknowledgement, and a whole transfer, of clipboard_selection_incr_chunk.py and
-- clipboard_selection_incr_handle.py, where the X server takes every request.
use pclipsync.Base.{
  ℕ, zero, suc, ◌+◌, ◌*◌, ◌≤◌, ◌<◌, ◌≡◌, ap, ◌∙◌, true, false, some, List, [], ◌∷◌, ◌++◌, arith,
  leb, if◌then◌else◌, length, take, drop, min, take-slice,
}
use pclipsync.Base.Dict.{key_eq, get, put}
use pclipsync.Exec.{ok}
use pclipsync.X11.{Bytes, Atom, WindowId, Request, change_property, flush, Outside}
use pclipsync.State.{IncrSendState, ClipboardState, incr_chunk_size, asked, with_pending, Accepts}
use pclipsync.Incr.{write_chunk, send_incr_chunk, acknowledge, handle_property_delete}

-- The values written to a property of a window, in the order in which they were written.
unfoldable pub writes : WindowId → Atom → List Request → List Bytes
writes w a [] = []
writes w a (change_property v b type format value ∷ h) =
    let before = writes w a h in if key_eq (v, b) (w, a) then before ++ value ∷ [] else before
writes w a (_ ∷ h) = writes w a h

unfoldable pub piece : Bytes → ℕ → Bytes
piece content i = take incr_chunk_size (drop (i * incr_chunk_size) content)

-- The first `n` chunks of a content.
abbrev pub pieces : Bytes → ℕ → List Bytes
pieces content zero = []
pieces content (suc n) = pieces content n ++ piece content n ∷ []

-- The transfer after `n` chunks.
abbrev pub sent : IncrSendState → ℕ → IncrSendState
sent st n = record st {
  offset = min (n * incr_chunk_size) (length st.content);
  completion_sent = false;
}

module _ (O : Outside) (A : Accepts O) where
  abbrev pub wrote : IncrSendState → Bytes → IncrSendState → ClipboardState → ClipboardState
  wrote st chunk st' s =
      with_pending (put (st.requestor, st.property_atom) st' s.pending_incr_sends) (
        asked flush
          (asked (change_property st.requestor st.property_atom st.target_atom 8 chunk) s))

  write_chunk_lem :
      (st : IncrSendState) (chunk : Bytes) (st' : IncrSendState) (s : ClipboardState)
      → write_chunk O (st.requestor, st.property_atom) st chunk st' s
        ≡ (ok tt, wrote st chunk st' s)
  unfolding write_chunk
  write_chunk_lem st chunk st' s = simp A.takes

  -- While data is left, the next chunk is sent and the offset moves past it.
  send_incr_chunk_more :
      (st : IncrSendState) (s : ClipboardState)
      → st.offset < length st.content
      → send_incr_chunk O st (st.requestor, st.property_atom) s ≡ (
        ok tt,
        wrote st
            (take incr_chunk_size (drop st.offset st.content))
            (record st { offset = min (st.offset + incr_chunk_size) (length st.content) })
            s,
      )
  unfolding send_incr_chunk
  send_incr_chunk_more st s h =
      let more : leb (length st.content) st.offset ≡ false = ground arith in
      rw more (
        write_chunk_lem st _ _ s
        ∙ ap
            (λ chunk. (
              ok tt,
              wrote st chunk
                  (record st { offset = min (st.offset + incr_chunk_size) (length st.content) }) s,
            ))
            (take-slice incr_chunk_size st.offset st.content))

  -- When all data was sent, the empty chunk is sent and the transfer is marked.
  send_incr_chunk_last :
      (st : IncrSendState) (s : ClipboardState)
      → length st.content ≤ st.offset
      → send_incr_chunk O st (st.requestor, st.property_atom) s
        ≡ (ok tt, wrote st [] (record st { completion_sent = true }) s)
  unfolding send_incr_chunk
  send_incr_chunk_last st s h =
      let done : leb (length st.content) st.offset ≡ true = ground arith in
      rw done (write_chunk_lem st [] (record st { completion_sent = true }) s)

  sent_next :
      (st : IncrSendState) (n : ℕ) (s : ClipboardState)
      → n * incr_chunk_size < length st.content
      → wrote
          (sent st n)
          (take incr_chunk_size (drop (sent st n).offset st.content))
          (record (sent st n) {
            offset = min ((sent st n).offset + incr_chunk_size) (length st.content);
          })
          s
        ≡ wrote (sent st n) (piece st.content n) (sent st (suc n)) s
  unfolding piece
  sent_next st n s h =
      let here : min (n * incr_chunk_size) (length st.content) ≡ n * incr_chunk_size =
        omega arith in
      let there : min (min (n * incr_chunk_size) (length st.content) + incr_chunk_size)
            (length st.content)
          ≡ min (suc n * incr_chunk_size) (length st.content) =
        omega arith in
      λ i.
        wrote (sent st n) (take incr_chunk_size (drop (here i) st.content))
          (record (sent st n) { offset = there i }) s

  -- An acknowledgement while data is left sends the next chunk.
  pub handle_more :
      (st : IncrSendState) (n : ℕ) (s : ClipboardState)
      → n * incr_chunk_size < length st.content
      → get (st.requestor, st.property_atom) s.pending_incr_sends ≡ some (sent st n)
      → handle_property_delete O st.requestor st.property_atom s
        ≡ (ok tt, wrote (sent st n) (piece st.content n) (sent st (suc n)) s)
  unfolding handle_property_delete acknowledge
  handle_more st n s h g =
      rw g (
        send_incr_chunk_more (sent st n) s (omega arith)
        ∙ ap (λ t. (ok tt, t)) (sent_next st n s h))

  -- An acknowledgement when all data was sent sends the empty chunk.
  pub handle_last :
      (st : IncrSendState) (n : ℕ) (s : ClipboardState)
      → length st.content ≤ n * incr_chunk_size
      → get (st.requestor, st.property_atom) s.pending_incr_sends ≡ some (sent st n)
      → handle_property_delete O st.requestor st.property_atom s
        ≡ (ok tt, wrote (sent st n) [] (record (sent st n) { completion_sent = true }) s)
  unfolding handle_property_delete acknowledge
  handle_last st n s h g = rw g (send_incr_chunk_last (sent st n) s (omega arith))
