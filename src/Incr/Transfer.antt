-- ===== src/Incr/Transfer.antt =====
-- A whole transfer of clipboard_selection_incr_*.py, from the first acknowledgement to the last.
use pclipsync.Base.{
  ℕ, zero, suc, ◌+◌, ◌*◌, ◌/◌, ◌≤◌, ◌<◌, ◌≡◌, refl, sym, ap, ◌∙◌, true, none, some, List, [], ◌∷◌,
  ◌++◌, append_assoc, append-nil, arith, length, take, drop, take-append-take, take-all, All,
  All-append, length-take, length-drop, flatten, flatten-concat,
}
use pclipsync.Base.Dict.{Key, get, get-put, key_eq, NodupKeys, put-NodupKeys, get-erase_self}
use pclipsync.Exec.{Result, ok, pure, ◌>>◌}
use pclipsync.X11.{Bytes, Atom, WindowId, Request, change_property, flush, Outside}
use pclipsync.State.{IncrSendState, ClipboardState, Io, incr_chunk_size, Accepts}
use pclipsync.Incr.{handle_property_delete, acknowledge}
use pclipsync.Incr.Chunks.{writes, piece, pieces, sent, wrote, handle_more, handle_last}
use pclipsync.Incr.Subscribe.{unsubscribe_incr_requestor_lem, unsubscribing}

-- The requestor deletes the property `n` times, and each time the program handles it.
unfoldable pub acknowledgements : Outside → ℕ → WindowId → Atom → Io (Unit {0})
acknowledgements O zero w p = pure tt
acknowledgements O (suc n) w p = do acknowledgements O n w p; handle_property_delete O w p

-- The chunks that a content fills, the last one perhaps in part.
abbrev pub chunk_count : Bytes → ℕ
chunk_count content = (length content + 65535) / 65536

key_eq_refl : (k : Key) → key_eq k k ≡ true
key_eq_refl (a, b) = ground arith

writes-wrote :
    (st : IncrSendState) (chunk : Bytes) (h : List Request)
    → writes st.requestor st.property_atom
        (flush ∷ change_property st.requestor st.property_atom st.target_atom 8 chunk ∷ h)
      ≡ writes st.requestor st.property_atom h ++ chunk ∷ []
unfolding writes
writes-wrote st chunk h = rw (key_eq_refl (st.requestor, st.property_atom))

-- The chunks of a content, one after the other, spell it.
pub flatten-pieces :
    (content : Bytes) (n : ℕ) → flatten (pieces content n) ≡ take (n * incr_chunk_size) content
unfolding piece
flatten-pieces content zero = refl
flatten-pieces content (suc n) =
    flatten-concat (pieces content n) (take incr_chunk_size (drop (n * incr_chunk_size) content))
    ∙ ap (λ l. l ++ take incr_chunk_size (drop (n * incr_chunk_size) content))
        (flatten-pieces content n)
    ∙ take-append-take (n * incr_chunk_size) incr_chunk_size content
    ∙ ap (λ k. take k content) (omega arith)

-- Neither empty, which would end the transfer, nor longer than a chunk may be.
abbrev pub IsChunk : Bytes → Type 0
IsChunk chunk = (0 < length chunk) × (length chunk ≤ incr_chunk_size)

pieces-IsChunk :
    (content : Bytes) (n : ℕ) → n ≤ chunk_count content → All IsChunk (pieces content n)
unfolding piece
pieces-IsChunk content zero h = tt
pieces-IsChunk content (suc n) h =
    All-append IsChunk (pieces content n) _ (pieces-IsChunk content n (omega arith)) (
      omega (
        arith,
        length-take incr_chunk_size (drop (n * incr_chunk_size) content),
        length-drop (n * incr_chunk_size) content,
      ))

module _ (O : Outside) (A : Accepts O) (st : IncrSendState) (s0 : ClipboardState) where
  -- After `n` chunks: the transfer holds its place, and just those chunks were written.
  record Sending (n : ℕ) (r : Result (Unit {0}) × ClipboardState) : Type 0 where
    returned : r.0 ≡ ok tt
    holds : get (st.requestor, st.property_atom) r.1.pending_incr_sends ≡ some (sent st n)
    nodup : NodupKeys r.1.pending_incr_sends
    written :
        writes st.requestor st.property_atom r.1.display.history
        ≡ writes st.requestor st.property_atom s0.display.history ++ pieces st.content n

  run : ℕ → Result (Unit {0}) × ClipboardState
  run n = acknowledgements O n st.requestor st.property_atom s0

  run_next :
      (n : ℕ)
      → (run n).0 ≡ ok tt
      → run (suc n) ≡ handle_property_delete O st.requestor st.property_atom (run n).1
  unfolding run acknowledgements
  run_next n e = rw e

  start :
      get (st.requestor, st.property_atom) s0.pending_incr_sends ≡ some (sent st 0)
      → NodupKeys s0.pending_incr_sends
      → Sending 0 (run 0)
  unfolding run acknowledgements
  start g u = record { returned = refl; holds = g; nodup = u; written = sym (append-nil _) }

  more :
      (n : ℕ)
      → n * incr_chunk_size < length st.content
      → Sending n (run n)
      → Sending (suc n) (run (suc n))
  more n h q =
      rw (run_next n q.returned, handle_more O A st n (run n).1 h q.holds)
        (record {
          returned = refl;
          holds = rw get-put (rw (key_eq_refl (st.requestor, st.property_atom)));
          nodup = put-NodupKeys _ _ (run n).1.pending_incr_sends q.nodup;
          written =
              writes-wrote st (piece st.content n) (run n).1.display.history
              ∙ ap (λ l. l ++ piece st.content n ∷ []) q.written
              ∙ append_assoc (writes st.requestor st.property_atom s0.display.history)
                  (pieces st.content n) (piece st.content n ∷ []);
        })

  -- As long as data is left before the last of `n` chunks, all `n` are sent.
  sending :
      (n : ℕ)
      → n ≤ chunk_count st.content
      → get (st.requestor, st.property_atom) s0.pending_incr_sends ≡ some (sent st 0)
      → NodupKeys s0.pending_incr_sends
      → Sending n (run n)
  sending zero h g u = start g u
  sending (suc n) h g u = more n (omega arith) (sending n (omega arith) g u)

  -- What a finished transfer has done: all was written in chunks that spell the content, then the
  -- empty chunk that ends it, and the transfer is gone.
  pub record Finished (r : Result (Unit {0}) × ClipboardState) : Type 0 where
    pub returned : r.0 ≡ ok tt
    pub written :
        writes st.requestor st.property_atom r.1.display.history
        ≡ writes st.requestor st.property_atom s0.display.history
          ++ (pieces st.content (chunk_count st.content) ++ [] ∷ [])
    pub spells : flatten (pieces st.content (chunk_count st.content)) ≡ st.content
    pub chunked : All IsChunk (pieces st.content (chunk_count st.content))
    pub gone : get (st.requestor, st.property_atom) r.1.pending_incr_sends ≡ none

  writes-unsubscribing :
      (count : ℕ) (h : List Request)
      → writes st.requestor st.property_atom (unsubscribing st.requestor count h)
        ≡ writes st.requestor st.property_atom h
  unfolding writes
  writes-unsubscribing count h = ground arith

  abbrev ended : ℕ → IncrSendState
  ended n = record (sent st n) { completion_sent = true }

  -- The acknowledgement of the empty chunk.
  finish :
      (n : ℕ) (t : ClipboardState)
      → get (st.requestor, st.property_atom) t.pending_incr_sends ≡ some (ended n)
      → NodupKeys t.pending_incr_sends
      → writes st.requestor st.property_atom t.display.history
        ≡ writes st.requestor st.property_atom s0.display.history
          ++ (pieces st.content (chunk_count st.content) ++ [] ∷ [])
      → Finished (handle_property_delete O st.requestor st.property_atom t)
  unfolding handle_property_delete acknowledge
  finish n t g u w =
      rw (g, unsubscribe_incr_requestor_lem O A (ended n) st.requestor st.property_atom t)
        (record {
          returned = refl;
          written = writes-unsubscribing _ t.display.history ∙ w;
          spells =
              flatten-pieces st.content (chunk_count st.content)
              ∙ take-all (chunk_count st.content * incr_chunk_size) st.content (omega arith);
          chunked = pieces-IsChunk st.content (chunk_count st.content) (omega arith);
          gone = get-erase_self (st.requestor, st.property_atom) t.pending_incr_sends u;
        })

  -- The acknowledgement after the last chunk sends the empty chunk.
  close :
      (n : ℕ)
      → length st.content ≤ n * incr_chunk_size
      → Sending n (run n)
      → run (suc n) ≡ (ok tt, wrote O A (sent st n) [] (ended n) (run n).1)
  close n h q = run_next n q.returned ∙ handle_last O A st n (run n).1 h q.holds

  finish_run :
      (n : ℕ) → n ≡ chunk_count st.content → Sending n (run n) → Finished (run (suc (suc n)))
  finish_run n e q =
      let t : ClipboardState = (run n).1 in
      let last = close n (omega arith) q in
      rw (run_next (suc n) (ap (λ r. r.0) last), last)
        (finish n (wrote O A (sent st n) [] (ended n) t)
          (rw get-put (rw (key_eq_refl (st.requestor, st.property_atom))))
          (put-NodupKeys _ _ t.pending_incr_sends q.nodup)
          (writes-wrote st [] t.display.history
            ∙ ap (λ l. l ++ [] ∷ []) q.written
            ∙ append_assoc (writes st.requestor st.property_atom s0.display.history)
                (pieces st.content n) ([] ∷ [])
            ∙ ap
                (λ k.
                  writes st.requestor st.property_atom s0.display.history
                  ++ (pieces st.content k ++ [] ∷ []))
                e))

  -- On an X server that takes every request, from a listed transfer at its start and with no key
  -- listed twice: as many acknowledgements as the content has chunks and two more raise nothing,
  -- write the chunks of the content in order and then an empty one, and remove the transfer; the
  -- chunks put together are the content, and each is neither empty nor over the chunk size.
  pub transfer_lem :
      get (st.requestor, st.property_atom) s0.pending_incr_sends ≡ some (sent st 0)
      → NodupKeys s0.pending_incr_sends
      → Finished
          (acknowledgements O (suc (suc (chunk_count st.content))) st.requestor st.property_atom s0)
  transfer_lem g u =
      unfold run in
      finish_run (chunk_count st.content) refl (sending (chunk_count st.content) (omega arith) g u)
