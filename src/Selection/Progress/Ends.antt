-- ===== src/Selection/Progress/Ends.antt =====
-- With enough acknowledgements in the queue a transfer ends, whatever else is queued:
-- process_pending_events of clipboard_selection_process.py.
use pclipsync.Base.{
  ℕ, zero, suc, ◌+◌, ◌-◌, ◌≤◌, ◌≡◌, refl, sym, ap, subst, ◌∙◌, false, Option, none, some, List, [],
  ◌∷◌, ◌++◌, arith, All, flatten,
}
use pclipsync.Base.Dict.{get}
use pclipsync.Exec.{Result, ok}
use pclipsync.X11.{Bytes, Outside}
use pclipsync.State.{IncrSendState, ClipboardState, Accepts}
use pclipsync.Incr.{is_stale, cleanup_stale_incr_sends}
use pclipsync.Incr.Chunks.{writes, pieces, sent}
use pclipsync.Incr.Transfer.{acknowledgements, chunk_count, IsChunk, transfer_lem}
use pclipsync.Incr.Cleanup.{IsWellFormed, cleanup_stale_incr_sends_lem}
use pclipsync.Incr.WellFormed.{handle_property_delete-IsWellFormed}
use pclipsync.Incr.View.{View, view, acked, view-handle_property_delete}
use pclipsync.Incr.View.Spared.{view-cleanup_stale_incr_sends}
use pclipsync.Selection.{process_pending_events}
use pclipsync.Selection.WellFormed.{same}
use pclipsync.Selection.Queue.{stale-HasQueue}
use pclipsync.Selection.Pending.{handle_property_delete_ok}
use pclipsync.Selection.Progress.{acked_times, acknowledgement_count, Survives, view-poll_loop}

acked_last : (n : ℕ) (v : View) → acked_times (suc n) v ≡ acked (acked_times n v)
acked_last zero v = refl
acked_last (suc n) v = acked_last n (acked v)

-- Acknowledgements, and then more of them.
pub acked_more : (m k : ℕ) (v : View) → acked_times (m + k) v ≡ acked_times k (acked_times m v)
acked_more zero k v = ap (λ n. acked_times n v) {x = 0 + k} {y = k} (omega arith)
acked_more (suc m) k v =
    ap (λ n. acked_times n v) {x = suc m + k} {y = suc (m + k)} (omega arith)
    ∙ acked_more m k (acked v)

-- Acknowledgements of a transfer that has ended are ignored.
acked_none : (k : ℕ) (ws : List Bytes) → acked_times k (none, ws) ≡ (none, ws)
unfolding acked
acked_none zero ws = refl
acked_none (suc k) ws = acked_none k ws

-- A transfer that has ended: its whole content was written in chunks, in order, and then the empty
-- chunk, and it is not listed any more.
pub record HasEnded (st : IncrSendState) (s t : ClipboardState) : Type 0 where
  pub gone : get (st.requestor, st.property_atom) t.pending_incr_sends ≡ none
  pub written :
      writes st.requestor st.property_atom t.display.history
      ≡ writes st.requestor st.property_atom s.display.history
        ++ (pieces st.content (chunk_count st.content) ++ [] ∷ [])
  pub spells : flatten (pieces st.content (chunk_count st.content)) ≡ st.content
  pub chunked : All IsChunk (pieces st.content (chunk_count st.content))

module _ (O : Outside) (A : Accepts O) where
  record Acknowledged (w p n : ℕ) (s : ClipboardState) (r : Result (Unit {0}) × ClipboardState)
      : Type 0 where
    returned : r.0 ≡ ok tt
    well_formed : IsWellFormed r.1
    viewed : view w p r.1 ≡ acked_times n (view w p s)

  acknowledgements-Acknowledged :
      (w p n : ℕ) (s : ClipboardState)
      → IsWellFormed s
      → Acknowledged w p n s (acknowledgements O n w p s)
  unfolding acknowledgements
  acknowledgements-Acknowledged w p zero s wf = record {
    returned = refl;
    well_formed = wf;
    viewed = refl;
  }
  acknowledgements-Acknowledged w p (suc n) s wf =
      let q = acknowledgements-Acknowledged w p n s wf in
      let t = (acknowledgements O n w p s).1 in
      rw q.returned (record {
        returned = handle_property_delete_ok O A w p t;
        well_formed = handle_property_delete-IsWellFormed O A w p t q.well_formed;
        viewed =
            view-handle_property_delete O A w p t q.well_formed
            ∙ ap acked q.viewed
            ∙ sym (acked_last n (view w p s));
      })

  -- On an X server that takes every request, from a well-formed state: whatever else is queued, a
  -- look at the pending events does to the entry of a transfer that is not stale, and to the
  -- values written to its property, what the queued acknowledgements of it do by themselves, one
  -- after the other, as long as no end of its window is queued.
  pub view-process_pending_events :
      (w p : ℕ) (s : ClipboardState)
      → IsWellFormed s
      → ((st : IncrSendState)
          → get (w, p) s.pending_incr_sends ≡ some st
          → is_stale s.display.wall (w, p) st ≡ false)
      → Survives w s.display.polls
      → view w p (process_pending_events O s).1
        ≡ acked_times (acknowledgement_count w p s.display.polls) (view w p s)
  unfolding process_pending_events
  view-process_pending_events w p s wf young alive =
      let cleaned = cleanup_stale_incr_sends_lem O A s wf in
      let q =
        (stale-HasQueue O A s.deferred_events s.display.polls).at s
          (record { deferred = refl; polls = refl }) in
      let t = (cleanup_stale_incr_sends O s).1 in
      let u : ClipboardState = record t { deferred_events = [] } in
      let wf' = same t u refl refl cleaned.well_formed in
      rw cleaned.returned (
        view-poll_loop O A w p t.deferred_events t.display.polls u wf'
          (subst (λ l. Survives w l) (sym q.polls) alive)
        ∙ ap (λ l. acked_times (acknowledgement_count w p l) (view w p u)) q.polls
        ∙ ap (λ v. acked_times (acknowledgement_count w p s.display.polls) v)
            (view-cleanup_stale_incr_sends O A w p s wf young))

  -- What enough acknowledgements alone do.
  pub acked_enough :
      (st : IncrSendState) (s : ClipboardState) (n : ℕ)
      → IsWellFormed s
      → get (st.requestor, st.property_atom) s.pending_incr_sends ≡ some (sent st 0)
      → chunk_count st.content + 2 ≤ n
      → acked_times n (view st.requestor st.property_atom s) ≡ (
        none,
        writes st.requestor st.property_atom s.display.history
            ++ (pieces st.content (chunk_count st.content) ++ [] ∷ []),
      )
  acked_enough st s n wf listed enough =
      let m = suc (suc (chunk_count st.content)) in
      let done = transfer_lem O A st s listed wf.nodup in
      let q = acknowledgements-Acknowledged st.requestor st.property_atom m s wf in
      let ws =
        writes st.requestor st.property_atom s.display.history
        ++ (pieces st.content (chunk_count st.content) ++ [] ∷ []) in
      let ended : acked_times m (view st.requestor st.property_atom s) ≡ (none, ws) =
        sym q.viewed ∙ (λ i. (done.gone i, done.written i)) in
      ap (λ k. acked_times k (view st.requestor st.property_atom s)) {x = n} {y = m + (n - m)}
        (omega arith)
      ∙ acked_more m (n - m) (view st.requestor st.property_atom s)
      ∙ ap (λ v. acked_times (n - m) v) ended
      ∙ acked_none (n - m) ws

  -- On an X server that takes every request, from a well-formed state with a transfer at its start
  -- that is not stale: if at least as many acknowledgements of it are queued as its content has
  -- chunks and two more, and no end of its window, then a look at the pending events ends the
  -- transfer, whatever else is queued between them: its content was written whole and in order, in
  -- chunks, and then the empty chunk, and it is not listed any more.
  pub process_pending_events-HasEnded :
      (st : IncrSendState) (s : ClipboardState)
      → IsWellFormed s
      → get (st.requestor, st.property_atom) s.pending_incr_sends ≡ some (sent st 0)
      → is_stale s.display.wall (st.requestor, st.property_atom) (sent st 0) ≡ false
      → Survives st.requestor s.display.polls
      → chunk_count st.content + 2
        ≤ acknowledgement_count st.requestor st.property_atom s.display.polls
      → HasEnded st s (process_pending_events O s).1
  process_pending_events-HasEnded st s wf listed young alive enough =
      let e =
        view-process_pending_events st.requestor st.property_atom s wf
          (λ st' g.
            ap
              (λ (o : Option IncrSendState). elim o [
                | none ↦ false
                | some x ↦ is_stale s.display.wall (st.requestor, st.property_atom) x
              ])
              (sym g ∙ listed)
            ∙ young)
          alive
        ∙ acked_enough st s _ wf listed enough in
      let done = transfer_lem O A st s listed wf.nodup in
      record {
        gone = ap (λ (v : View). v.0) e;
        written = ap (λ (v : View). v.1) e;
        spells = done.spells;
        chunked = done.chunked;
      }
