-- ===== src/SyncLoop/Looks.antt =====
-- A transfer over several rounds of sync_loop_inner.py: looks at the pending events, and between
-- them messages from the remote side and events that are not about the transfer.
use pclipsync.Base.{ℕ, ◌+◌, ◌≤◌, ◌≡◌, refl, sym, ap, ◌∙◌, false, some, ◌==◌}
use pclipsync.Base.Dict.{get}
use pclipsync.X11.{Bytes, Event, Outside}
use pclipsync.State.{IncrSendState, ClipboardState, Accepts}
use pclipsync.Incr.{is_stale}
use pclipsync.Incr.Chunks.{sent}
use pclipsync.Incr.Transfer.{chunk_count, transfer_lem}
use pclipsync.Incr.Cleanup.{IsWellFormed}
use pclipsync.Incr.View.{View, view}
use pclipsync.Selection.{process_pending_events}
use pclipsync.Selection.WellFormed.{pending_events-Keeps}
use pclipsync.Selection.Progress.{acked_times, acknowledgement_count, Survives}
use pclipsync.Selection.Progress.Ends.{
  HasEnded, acked_more, acked_enough, view-process_pending_events,
}
use pclipsync.Sync.{handle_incoming_content}
use pclipsync.SyncLoop.{handle_event}
use pclipsync.SyncLoop.WellFormed.{event-Keeps, incoming-Keeps}
use pclipsync.SyncLoop.Spares.{Spared, handle_incoming_content-IsSeen, handle_event-IsSeen}

-- Steps of the loop, with the number of acknowledgements of one transfer that its looks find. The
-- transfer is to another window, is not stale and its window does not end.
pub data Looks (O : Outside) (w p : ℕ) : ClipboardState → ℕ → ClipboardState → Type 0 where
  done : {s : ClipboardState} → Looks O w p s 0 s
  look :
      {s t : ClipboardState} {n m : ℕ}
      → ((st : IncrSendState)
          → get (w, p) s.pending_incr_sends ≡ some st
          → is_stale s.display.wall (w, p) st ≡ false)
      → Survives w s.display.polls
      → Looks O w p (process_pending_events O s).1 n t
      → m ≡ acknowledgement_count w p s.display.polls + n
      → Looks O w p s m t
  incoming :
      {s t : ClipboardState} {n : ℕ} (c : Bytes)
      → s.window == w ≡ false
      → Looks O w p (handle_incoming_content O c s).1 n t
      → Looks O w p s n t
  event :
      {s t : ClipboardState} {n : ℕ} (e : Event)
      → s.window == w ≡ false
      → Spared w p s e
      → Looks O w p (handle_event O e s).1 n t
      → Looks O w p s n t

module _ (O : Outside) (A : Accepts O) where
  -- The steps do to a transfer what the acknowledgements that they find do, one after the other.
  view-Looks :
      (w p : ℕ) {s t : ClipboardState} {n : ℕ}
      → IsWellFormed s
      → Looks O w p s n t
      → view w p t ≡ acked_times n (view w p s)
  view-Looks w p wf done = refl
  view-Looks w p {s} wf (look {n = n} young alive more counts) =
      let k = acknowledgement_count w p s.display.polls in
      view-Looks w p ((pending_events-Keeps O A).at s wf) more
      ∙ ap (acked_times n) (view-process_pending_events O A w p s wf young alive)
      ∙ sym (acked_more k n (view w p s))
      ∙ ap (λ m. acked_times m (view w p s)) (sym counts)
  view-Looks w p {s} {n = n} wf (incoming c not_own more) =
      view-Looks w p ((incoming-Keeps O A c).at s wf) more
      ∙ ap (acked_times n)
          ((handle_incoming_content-IsSeen O A w p (view w p s) c).at s
            (record { not_own = not_own; seen = refl })).seen
  view-Looks w p {s} {n = n} wf (event e not_own spared more) =
      view-Looks w p ((event-Keeps O A e).at s wf) more
      ∙ ap (acked_times n)
          (handle_event-IsSeen O A w p (view w p s) s wf spared
            (record { not_own = not_own; seen = refl })).seen

  -- On an X server that takes every request, from a well-formed state with a transfer at its
  -- start, let the loop make these steps in any number and order: looks at the pending events,
  -- with the transfer not stale and no end of its window queued, and between them contents from
  -- the remote side, requests under other keys, changes of the owner of other selections or to the
  -- own window, and events that mean nothing, where the window of the transfer is not the own one.
  -- If the looks together find as many acknowledgements as the content has chunks, and two more,
  -- then the transfer has ended: its content was written whole and in order, in chunks, and then
  -- the empty chunk, and it is not listed any more.
  pub Looks-HasEnded :
      (st : IncrSendState) {s t : ClipboardState} {n : ℕ}
      → IsWellFormed s
      → get (st.requestor, st.property_atom) s.pending_incr_sends ≡ some (sent st 0)
      → Looks O st.requestor st.property_atom s n t
      → chunk_count st.content + 2 ≤ n
      → HasEnded st s t
  Looks-HasEnded st {s} {n = n} wf listed looks enough =
      let e =
        view-Looks st.requestor st.property_atom wf looks
        ∙ acked_enough O A st s n wf listed enough in
      let done = transfer_lem O A st s listed wf.nodup in
      record {
        gone = ap (λ (v : View). v.0) e;
        written = ap (λ (v : View). v.1) e;
        spells = done.spells;
        chunked = done.chunked;
      }
