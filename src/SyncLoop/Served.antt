-- ===== src/SyncLoop/Served.antt =====
-- What arrived is what local applications get: sync_handlers.py with the events of
-- sync_loop_inner.py.
use pclipsync.Base.{
  ◌≡◌, sym, subst, ◌⊎◌, inl, inr, true, false, ◌||◌, some, ◌∷◌, ◌==◌, arith, Bool-cases,
}
use pclipsync.Base.Dict.{get, get-put}
use pclipsync.X11.{
  Bytes, Atom, selection_request, SelectionRequest, change_property, send_event, flush, Outside,
}
use pclipsync.State.{ClipboardState, Accepts}
use pclipsync.Incr.{needs_incr_transfer, reply, new_transfer}
use pclipsync.Incr.Initiate.{initiate_incr_send_lem}
use pclipsync.Selection.{
  handle_content_request, send_selection_notify, answer_content, handle_selection_request,
}
use pclipsync.Sync.{handle_incoming_content}
use pclipsync.Sync.Content.{handle_incoming_content-HasContent}
use pclipsync.SyncLoop.{handle_event}

-- The content is written to the requestor's property and the requestor notified, or, where it does
-- not fit a property, a transfer of it is listed.
abbrev pub Serves : Outside → SelectionRequest → Bytes → ClipboardState → ClipboardState → Type 0
Serves O e c t u =
    ((needs_incr_transfer O c ≡ false)
      × (u.display.history
          ≡ flush
            ∷ send_event e.requestor (reply e e.property)
            ∷ change_property e.requestor e.property e.target 8 c
            ∷ t.display.history))
    ⊎ ((needs_incr_transfer O c ≡ true)
        × (get (e.requestor, e.property) u.pending_incr_sends
            ≡ some (new_transfer e c t.display.wall)))

module _ (O : Outside) (A : Accepts O) (e : SelectionRequest) where
  answer_content-Serves :
      (c : Bytes) (incr_atom : Atom) (t : ClipboardState)
      → Serves O e c t (answer_content O e c incr_atom t).1
  unfolding answer_content handle_content_request send_selection_notify
  answer_content-Serves c incr_atom t = elim (Bool-cases (needs_incr_transfer O c)) [
    | inl large ↦
        inr (
          large,
          rw (large, initiate_incr_send_lem O A e c incr_atom t) (rw get-put (ground arith)),
        )
    | inr small ↦ inl (small, rw small (simp A.takes))
  ]

  -- On an X server that takes every request: after a content came from the remote side, whatever
  -- became of the selections, a selection request whose target is a text and not TARGETS is served
  -- with that content, in the property of the requestor, which is notified, or, where it does not
  -- fit a property, by a listed transfer of it.
  pub handle_incoming_content-Serves :
      (c : Bytes) (s : ClipboardState)
      → (e.target == O.targets_atom) ≡ false
      → (e.target == O.utf8_atom || e.target == O.string_atom) ≡ true
      → let t = (handle_incoming_content O c s).1 in
        Serves O e c t (handle_event O (selection_request e) t).1
  unfolding handle_event handle_selection_request
  handle_incoming_content-Serves c s other wanted =
      let t = (handle_incoming_content O c s).1 in
      rw (other, wanted)
        (subst (λ d. Serves O e c t (answer_content O e d t.incr_atom t).1)
          (sym (handle_incoming_content-HasContent O c s)) (answer_content-Serves c t.incr_atom t))
