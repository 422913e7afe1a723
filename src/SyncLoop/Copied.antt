-- ===== src/SyncLoop/Copied.antt =====
-- Another application takes a selection: the event of sync_loop_inner.py, from the loss of the
-- selection to the message that is sent.
use pclipsync.Base.{List, [], subst, sym, ◌≡◌, refl, ap, ◌∙◌, false, ◌∷◌, ◌==◌}
use pclipsync.Exec.{Result, ok}
use pclipsync.HashState.{fresh, record_sent, clear_received_hash, clear_sent_hash}
use pclipsync.Protocol.{encode_netstring}
use pclipsync.X11.{Bytes, Atom, WindowId, set_selection_owner_notify, get_selection_owner, Outside}
use pclipsync.State.{ClipboardState, asked, Accepts}
use pclipsync.Incr.Cleanup.{IsWellFormed, cleanup_incr_sends_on_ownership_loss_lem}
use pclipsync.Selection.WellFormed.{IsWellFormed-Passive}
use pclipsync.Sync.{discard, handle_clipboard_change}
use pclipsync.Sync.Silent.{network}
use pclipsync.Sync.Readable.{Readable}
use pclipsync.Sync.Returns.{NoneLost, Answers}
use pclipsync.Sync.Sent.{IsSent, handle_clipboard_change-IsSent}
use pclipsync.SyncLoop.{lose_ownership, handle_event}
use pclipsync.SyncLoop.Rounds.{IsMessage}
use pclipsync.SyncLoop.Unsent.{lose_ownership-IsUnsent}

module _ (O : Outside) (A : Accepts O) where
  -- Losing a selection raises nothing and forgets both hashes.
  pub lose_ownership_lem :
      (a : Atom) (s : ClipboardState)
      → IsWellFormed s
      → ((lose_ownership O a s).0 ≡ ok tt) × ((lose_ownership O a s).1.hash_state ≡ fresh)
  unfolding lose_ownership clear_received_hash clear_sent_hash
  lose_ownership_lem a s w =
      let u : ClipboardState = record s { owned_selections = discard a s.owned_selections } in
      let cancels =
        cleanup_incr_sends_on_ownership_loss_lem O A u
          (IsWellFormed-Passive.at_owned (discard a s.owned_selections) s w) a in
      (rw cancels.returned, rw cancels.returned)

  pub handle_event-changed :
      (a : Atom) (owner : WindowId) (s : ClipboardState)
      → IsWellFormed s
      → owner == s.window ≡ false
      → handle_event O (set_selection_owner_notify a owner) s
        ≡ handle_clipboard_change O a (lose_ownership O a s).1
  unfolding handle_event
  handle_event-changed a owner s w other = rw (other, (lose_ownership_lem a s w).0)

-- Another application has taken a selection, from a well-formed state, on an X server that always
-- says who owns a selection: its content can be read, is not empty and within the limit, and no look
-- at the queue of events behind it raises.
pub record Copies (O : Outside) (N : Answers O) (a : Atom) (owner : WindowId) (c : Bytes)
    (s : ClipboardState) : Type 0 where
  pub well_formed : IsWellFormed s
  pub is_other : owner == s.window ≡ false
  pub still_other :
      let v = (lose_ownership O a s).1 in N.owner v.display.history a == v.window ≡ false
  pub readable : Readable O a c (asked (get_selection_owner a) (lose_ownership O a s).1)
  pub later : NoneLost readable.read.display.polls
  pub message : IsMessage c

-- The state once the event is handled.
abbrev pub copied : Outside → Atom → WindowId → ClipboardState → ClipboardState
copied O a owner s = (handle_event O (set_selection_owner_notify a owner) s).1

-- On an X server that takes every request too, the content is sent.
pub copied-IsSent :
    (O : Outside) (A : Accepts O) (N : Answers O) (a : Atom) (owner : WindowId) (c : Bytes)
    (s : ClipboardState)
    → Copies O N a owner c s
    → IsSent O c (network s.display.history) fresh (copied O a owner s)
copied-IsSent O A N a owner c s h =
    let v = (lose_ownership O a s).1 in
    let kept =
      (lose_ownership-IsUnsent O (network s.display.history) a).at s (record { sent = refl }) in
    let (_, forgot) = lose_ownership_lem O A a s h.well_formed in
    let sent =
      handle_clipboard_change-IsSent O A N a c v h.still_other h.readable h.later h.message.0
        h.message.1 (rw forgot (cc)) (rw forgot (cc)) in
    subst (λ t. IsSent O c (network s.display.history) fresh t)
      (sym (
        ap (λ (r : Result (Unit {0}) × ClipboardState). r.1)
          (handle_event-changed O A a owner s h.well_formed h.is_other)))
      (record {
        wrote = sent.wrote ∙ ap (λ n. encode_netstring c ∷ n) kept.sent;
        content = sent.content;
        recorded = sent.recorded ∙ ap (record_sent (O.sha256 c)) forgot;
      })

-- What is written is the encoded content.
pub copied-wire :
    (O : Outside) (A : Accepts O) (N : Answers O) (a : Atom) (owner : WindowId) (c wire : Bytes)
    (s : ClipboardState)
    → Copies O N a owner c s
    → network (copied O a owner s).display.history ≡ wire ∷ network s.display.history
    → encode_netstring c ≡ wire
copied-wire O A N a owner c wire s h wrote =
    ap (λ (l : List Bytes). elim l [ [] ↦ wire | x ∷ _ ↦ x ])
      (sym (copied-IsSent O A N a owner c s h).wrote ∙ wrote)
