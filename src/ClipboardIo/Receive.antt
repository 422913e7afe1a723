-- ===== src/ClipboardIo/Receive.antt =====
-- Receiving by the INCR protocol, `_handle_incr_transfer` of clipboard_io.py: what it returns, and
-- that the rounds given to its loop are enough.
use pclipsync.Base.{
  ℕ, zero, suc, ◌≤◌, ◌<◌, ◌≡◌, sym, ap, ◌∙◌, subst, false, Option, some, List, [], ◌∷◌, ◌++◌,
  append_assoc, append-nil, arith, ltb, length, length-append, flatten,
}
use pclipsync.Exec.{Result, ok, pure}
use pclipsync.Protocol.{max_content_size}
use pclipsync.X11.{Bytes, Atom, delete_property, flush, Outside}
use pclipsync.State.{ClipboardState, Io, asked, Accepts}
use pclipsync.ClipboardIo.Reads.{Reads, last, next, rounds_enough}
use pclipsync.ClipboardIo.{
  Step, more, done, take_chunk, next_chunk, chunk_loop, handle_incr_transfer,
}

module _ (O : Outside) (a : Atom) where
  abbrev Received : Bytes → ClipboardState → Bytes → ClipboardState → Type 0
  Received buf s out t =
      (cs : List Bytes) × Reads O a s cs t
      × (out ≡ buf ++ flatten cs)
      × (length out ≤ max_content_size)

  on_step : ℕ → Step → Io (Option Bytes)
  on_step fuel step = elim step [ more buf' ↦ chunk_loop O fuel a buf' | done r ↦ pure r ]

  abbrev After : ℕ → Bytes → Type 0
  After fuel out =
      (buf : Bytes) (v t : ClipboardState)
      → length buf ≤ max_content_size
      → chunk_loop O fuel a buf v ≡ (ok (some out), t)
      → Received buf v out t

  abbrev answer : Option Bytes → ClipboardState → Result (Option Bytes) × ClipboardState
  answer b v = (ok b, v)

  complete :
      (fuel : ℕ) (buf : Bytes) (s t : ClipboardState) (cs : List Bytes)
      → Reads O a s cs t
      → length cs < fuel
      → length (buf ++ flatten cs) ≤ max_content_size
      → chunk_loop O fuel a buf s ≡ (ok (some (buf ++ flatten cs)), t)
  unfolding chunk_loop next_chunk take_chunk
  complete zero buf s t cs reads few fits = ground arith
  complete (suc fuel) buf s t [] (last e u w r) few fits =
      rw (w, r) (ap (λ x. (ok (some x), t)) (sym (append-nil buf)))
  complete (suc fuel) buf s t ([] ∷ cs) reads few fits = elim reads [ ]
  complete (suc fuel) buf s t ((b ∷ bs) ∷ cs) (next e u v w r reads) few fits =
      let assoc = append_assoc buf (b ∷ bs) (flatten cs) in
      let under : ltb max_content_size (length (buf ++ b ∷ bs)) ≡ false =
        ground (arith, length-append (buf ++ b ∷ bs) (flatten cs)) in
      let rest =
        complete fuel (buf ++ b ∷ bs) v t cs reads (ground arith)
          (subst (λ x. length x ≤ max_content_size) (sym assoc) fits) in
      rw (w, r, under) (rest ∙ ap (λ x. (ok (some x), t)) assoc)

-- The state once the property that announced the transfer is deleted.
abbrev pub handshaken : Atom → ClipboardState → ClipboardState
handshaken a s = asked flush (asked (delete_property s.window a) s)

module _ (O : Outside) (accepts : Accepts O) (a : Atom) where
  transfer_loop :
      (s : ClipboardState)
      → handle_incr_transfer O a s
        ≡ chunk_loop O (suc (length s.display.polls)) a [] (handshaken a s)
  unfolding handle_incr_transfer
  transfer_loop s = simp accepts.takes

  pub handle_incr_transfer-Reads :
      (s t : ClipboardState) (cs : List Bytes)
      → Reads O a (handshaken a s) cs t
      → length (flatten cs) ≤ max_content_size
      → handle_incr_transfer O a s ≡ (ok (some (flatten cs)), t)
  handle_incr_transfer-Reads s t cs reads fits =
      transfer_loop s
      ∙ complete O a (suc (length s.display.polls)) [] (handshaken a s) t cs reads
          (let few = rounds_enough O a reads in ground arith) fits
