-- ===== src/Delivery/Pasted.antt =====
-- What is copied on one machine is pasted on the other: from the event of sync_loop_inner.py on one
-- side, over the socket, to the answer of the other side's clipboard_selection_request.py.
use pclipsync.Base.{◌≡◌, refl, sym, subst, true, false, ◌||◌, [], ◌∷◌, ◌==◌}
use pclipsync.Protocol.{Ending, encode_netstring}
use pclipsync.X11.{Bytes, Atom, WindowId, SelectionRequest, selection_request, Outside}
use pclipsync.State.{ClipboardState, Accepts}
use pclipsync.Sync.Silent.{network}
use pclipsync.Sync.Returns.{Answers}
use pclipsync.SyncLoop.{Session, handle_event, round}
use pclipsync.SyncLoop.Rounds.{IsMessage, read_wake, with_bytes}
use pclipsync.Delivery.Rounds.{round-encode_netstring}
use pclipsync.SyncLoop.Served.{Serves, handle_incoming_content-Serves}
use pclipsync.SyncLoop.Copied.{Copies, copied, copied-IsSent}

-- A round of a session reads these bytes to the last one, and a selection request then gets the
-- content.
abbrev pub Pastes : Outside → SelectionRequest → Bytes → Bytes → Ending → Session → Type 0
Pastes O e c wire ending r =
    let t = (round O read_wake (with_bytes wire ending r)).1 in
    (t.reader ≡ record { bytes = []; ending = ending })
    × Serves O e c t.state (handle_event O (selection_request e) t.state).1

module _ (O : Outside) (A : Accepts O) (e : SelectionRequest)
    (other : (e.target == O.targets_atom) ≡ false)
    (wanted : (e.target == O.utf8_atom || e.target == O.string_atom) ≡ true) where
  Pastes-encode_netstring :
      (c : Bytes) (ending : Ending) (r : Session)
      → IsMessage c
      → Pastes O e c (encode_netstring c) ending r
  Pastes-encode_netstring c ending r h =
      subst
        (λ (t : Session).
          (t.reader ≡ record { bytes = []; ending = ending })
          × Serves O e c t.state (handle_event O (selection_request e) t.state).1)
        (sym (round-encode_netstring O c ending r h))
        (refl, handle_incoming_content-Serves O A e c r.state other wanted)

  module _ (O' : Outside) (A' : Accepts O') (N : Answers O') where
    -- On X servers that take every request, and where that of the copying side always says who
    -- owns a selection: if another application takes a selection while the state is well formed,
    -- and its content can be read, whole or by chunks, is not empty and is within the limit, and
    -- no look at the queue behind it raises, then handling the event writes one message to the
    -- socket, a round of the other side in which only the read task is done reads that message to
    -- the last byte, and a selection request there, whose target is a text and not TARGETS, is
    -- then served with exactly that content, in the property of the requestor, which is notified,
    -- or, where it does not fit a property, by a listed transfer of it.
    pub copy_paste :
        (a : Atom) (owner : WindowId) (c : Bytes) (s : ClipboardState) (ending : Ending)
        (r : Session)
        → Copies O' N a owner c s
        → (wire : Bytes) × (network (copied O' a owner s).display.history
            ≡ wire ∷ network s.display.history)
          × Pastes O e c wire ending r
    copy_paste a owner c s ending r h = (
      encode_netstring c,
      (copied-IsSent O' A' N a owner c s h).wrote,
      Pastes-encode_netstring c ending r h.message,
    )
