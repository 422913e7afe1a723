-- ===== src/Delivery/Large.antt =====
-- A content that does not fit a property, from the copy on one side to the last chunk of the
-- transfer that pastes it on the other.
use pclipsync.Base.{
  ℕ, ◌+◌, ◌≤◌, ◌≡◌, sym, ap, subst, ◌∙◌, true, false, ◌||◌, [], ◌∷◌, ◌==◌, length, arith,
}
use pclipsync.Base.Dict.{put, get-put}
use pclipsync.Protocol.{Ending}
use pclipsync.X11.{
  Bytes, Atom, WindowId, SelectionRequest, selection_request, change_attributes, change_property,
  send_event, flush, property_and_structure, Outside,
}
use pclipsync.State.{ClipboardState, asked, with_pending, Accepts}
use pclipsync.Incr.{needs_incr_transfer, reply, new_transfer}
use pclipsync.Incr.Cleanup.{IsWellFormed}
use pclipsync.Incr.Initiate.{initiate_incr_send_lem}
use pclipsync.Incr.Transfer.{chunk_count}
use pclipsync.Selection.{handle_selection_request, answer_content, handle_content_request}
use pclipsync.Selection.Progress.Ends.{HasEnded}
use pclipsync.Sync.Silent.{network}
use pclipsync.Sync.Content.{handle_incoming_content-HasContent}
use pclipsync.Sync.Returns.{Answers}
use pclipsync.SyncLoop.{Session, handle_event, round}
use pclipsync.SyncLoop.Rounds.{read_wake, with_bytes}
use pclipsync.SyncLoop.WellFormed.{event-Keeps, incoming-Keeps}
use pclipsync.SyncLoop.Copied.{Copies, copied, copied-wire}
use pclipsync.SyncLoop.Looks.{Looks, Looks-HasEnded}
use pclipsync.Delivery.Rounds.{received, round-encode_netstring}

-- The state once a transfer of the content is announced.
abbrev started : SelectionRequest → Bytes → Atom → ClipboardState → ClipboardState
started e c incr_atom t =
    with_pending
      (put (e.requestor, e.property) (new_transfer e c t.display.wall) t.pending_incr_sends)
      (asked flush (
        asked (send_event e.requestor (reply e e.property)) (
          asked (change_property e.requestor e.property incr_atom 32 (length c ∷ []))
            (asked (change_attributes e.requestor property_and_structure) t))))

module _ (O : Outside) (A : Accepts O) (e : SelectionRequest) (c : Bytes)
    (other : (e.target == O.targets_atom) ≡ false)
    (wanted : (e.target == O.utf8_atom || e.target == O.string_atom) ≡ true)
    (large : needs_incr_transfer O c ≡ true) where
  answer_content-started :
      (t : ClipboardState) → (answer_content O e c t.incr_atom t).1 ≡ started e c t.incr_atom t
  unfolding answer_content handle_content_request
  answer_content-started t = rw (large, initiate_incr_send_lem O A e c t.incr_atom t)

  handle_event-started :
      (t : ClipboardState)
      → t.current_content ≡ c
      → (handle_event O (selection_request e) t).1 ≡ started e c t.incr_atom t
  unfolding handle_event handle_selection_request
  handle_event-started t same =
      rw (other, wanted)
        (ap (λ d. (answer_content O e d t.incr_atom t).1) same ∙ answer_content-started t)

  started-HasEnded :
      (t z : ClipboardState) (n : ℕ)
      → let u = started e c t.incr_atom t in
        IsWellFormed u
        → Looks O e.requestor e.property u n z
        → chunk_count c + 2 ≤ n
        → HasEnded (new_transfer e c t.display.wall) u z
  started-HasEnded t z n wf looks enough =
      Looks-HasEnded O A (new_transfer e c t.display.wall) wf (rw get-put (ground arith)) looks
        enough

  -- On X servers that take every request, and where that of the copying side always says who owns
  -- a selection: let another application takes a selection while the state is well formed, and its
  -- content can be read, whole or by chunks, is not empty and is within the limit, and no look at
  -- the queue behind it raises; let the other side, from a well-formed state, read the bytes that
  -- this writes, in a round in which only the read task is done, and then get a selection request
  -- whose target is a text and not TARGETS, where the content does not fit a property; and let it
  -- go on by any steps of these kinds: looks at the pending events, with the transfer not stale
  -- and no end of its window queued, and between them contents from the remote side, requests
  -- under other keys, changes of the owner of other selections or to the own window, and events
  -- that mean nothing, where the window of the transfer is not the own one. If the looks together
  -- find as many acknowledgements as the content has chunks, and two more, then that content was
  -- written to the requestor's property whole and in order, in chunks, and then the empty chunk,
  -- and the transfer is not listed any more.
  pub copy_paste-HasEnded :
      (O' : Outside) (A' : Accepts O') (N : Answers O') (a : Atom) (owner : WindowId)
      (s : ClipboardState) (wire : Bytes) (ending : Ending) (r : Session) (n : ℕ)
      (z : ClipboardState)
      → Copies O' N a owner c s
      → network (copied O' a owner s).display.history ≡ wire ∷ network s.display.history
      → IsWellFormed r.state
      → let t = (round O read_wake (with_bytes wire ending r)).1.state in
        let u = (handle_event O (selection_request e) t).1 in
        Looks O e.requestor e.property u n z
        → chunk_count c + 2 ≤ n
        → HasEnded (new_transfer e c t.display.wall) u z
  copy_paste-HasEnded O' A' N a owner s wire ending r n z h wrote wf =
      let t = (received O c ending r).state in
      let same_state : t ≡ (round O read_wake (with_bytes wire ending r)).1.state =
        sym (ap (λ (x : Session). x.state) (round-encode_netstring O c ending r h.message))
        ∙ ap (λ b. (round O read_wake (with_bytes b ending r)).1.state)
            (copied-wire O' A' N a owner c wire s h wrote) in
      let start = handle_event-started t (handle_incoming_content-HasContent O c r.state) in
      let wf' =
        (event-Keeps O A (selection_request e)).at t ((incoming-Keeps O A c).at r.state wf) in
      subst
        (λ (t : ClipboardState).
          let u = (handle_event O (selection_request e) t).1 in
          Looks O e.requestor e.property u n z
          → chunk_count c + 2 ≤ n
          → HasEnded (new_transfer e c t.display.wall) u z)
        same_state
        (subst
          (λ (u : ClipboardState).
            Looks O e.requestor e.property u n z
            → chunk_count c + 2 ≤ n
            → HasEnded (new_transfer e c t.display.wall) u z)
          (sym start)
          (started-HasEnded t z n (subst (λ (u : ClipboardState). IsWellFormed u) start wf')))
