-- ===== src/Delivery/Exchange.antt =====
-- Copies on both sides, each of which is read by the other side before the next one: sync_loop_inner.py
-- and sync_handlers.py in both directions.
use pclipsync.Base.{◌≡◌, sym, ap, ◌∙◌, List, [], ◌∷◌}
use pclipsync.Protocol.{Ending}
use pclipsync.X11.{Bytes, Atom, WindowId, Outside}
use pclipsync.State.{ClipboardState, Accepts}
use pclipsync.Sync.Silent.{network}
use pclipsync.Sync.Content.{handle_incoming_content-HasContent}
use pclipsync.Sync.Returns.{Answers}
use pclipsync.SyncLoop.{Session, round}
use pclipsync.SyncLoop.Rounds.{read_wake, with_bytes}
use pclipsync.SyncLoop.Copied.{Copies, copied, copied-IsSent, copied-wire}
use pclipsync.Delivery.Rounds.{round-encode_netstring}
use pclipsync.Delivery.Sequence.{latest}

-- The session once its application has copied.
abbrev pub copies : Outside → Atom → WindowId → Session → Session
copies O a owner s = record s { state = copied O a owner s.state }

-- The session once it has read these bytes.
abbrev pub reads : Outside → Bytes → Ending → Session → Session
reads O wire ending s = (round O read_wake (with_bytes wire ending s)).1

-- The contents that are copied on either side, in their order. What a copy writes is read before the
-- next one, and between them both sides may do anything that changes no content.
pub data Exchange (O : Outside) (N : Answers O) (O' : Outside) (N' : Answers O')
    : Session → Session → List Bytes → Session → Session → Type 0 where
  done : {l r : Session} → Exchange O N O' N' l r [] l r
  left_copies :
      {l r l' r' : Session} {c : Bytes} {cs : List Bytes} (a : Atom) (owner : WindowId)
      (wire : Bytes) (ending : Ending)
      → Copies O N a owner c l.state
      → network (copies O a owner l).state.display.history ≡ wire ∷ network l.state.display.history
      → Exchange O N O' N' (copies O a owner l) (reads O' wire ending r) cs l' r'
      → Exchange O N O' N' l r (c ∷ cs) l' r'
  right_copies :
      {l r l' r' : Session} {c : Bytes} {cs : List Bytes} (a : Atom) (owner : WindowId)
      (wire : Bytes) (ending : Ending)
      → Copies O' N' a owner c r.state
      → network (copies O' a owner r).state.display.history ≡ wire ∷ network r.state.display.history
      → Exchange O N O' N' (reads O wire ending l) (copies O' a owner r) cs l' r'
      → Exchange O N O' N' l r (c ∷ cs) l' r'
  quiet :
      {l r l' r' : Session} {cs : List Bytes} (m n : Session)
      → m.state.current_content ≡ l.state.current_content
      → n.state.current_content ≡ r.state.current_content
      → Exchange O N O' N' m n cs l' r'
      → Exchange O N O' N' l r cs l' r'

-- What one side copies, the other holds once it has read it.
module _ (O : Outside) (A : Accepts O) (N : Answers O) (O' : Outside) where
  content-reads :
      (a : Atom) (owner : WindowId) (c wire : Bytes) (s : ClipboardState) (ending : Ending)
      (r : Session)
      → Copies O N a owner c s
      → network (copied O a owner s).display.history ≡ wire ∷ network s.display.history
      → (reads O' wire ending r).state.current_content ≡ c
  content-reads a owner c wire s ending r h wrote =
      ap (λ b. (reads O' b ending r).state.current_content)
        (sym (copied-wire O A N a owner c wire s h wrote))
      ∙ ap (λ (t : Session). t.state.current_content)
          (round-encode_netstring O' c ending r h.message)
      ∙ handle_incoming_content-HasContent O' c r.state

module _ (O : Outside) (A : Accepts O) (N : Answers O) (O' : Outside) (A' : Accepts O')
    (N' : Answers O') where
  -- On X servers that take every request and always say who owns a selection, from two sides that
  -- hold the same content: let other applications copy on either side, one after the other and in
  -- any order of the sides, each copy in a well-formed state and with a content that can be read,
  -- is not empty and within the limit, no look at the queue behind it raising, and let the other
  -- side read what a copy writes before the next copy, while in between both sides do anything
  -- that changes no content. Then both sides end with the content of the last copy, or with the
  -- one they held when there is none.
  pub Exchange-latest :
      (old : Bytes) {l r l' r' : Session} {cs : List Bytes}
      → l.state.current_content ≡ old
      → r.state.current_content ≡ old
      → Exchange O N O' N' l r cs l' r'
      → (l'.state.current_content ≡ latest old cs) × (r'.state.current_content ≡ latest old cs)
  Exchange-latest old at_left at_right done = (at_left, at_right)
  Exchange-latest old {l} {r} at_left at_right
        (left_copies {c = c} a owner wire ending h wrote more) =
      Exchange-latest c (copied-IsSent O A N a owner c l.state h).content
        (content-reads O A N O' a owner c wire l.state ending r h wrote) more
  Exchange-latest old {l} {r} at_left at_right
        (right_copies {c = c} a owner wire ending h wrote more) =
      Exchange-latest c (content-reads O' A' N' O a owner c wire r.state ending l h wrote)
        (copied-IsSent O' A' N' a owner c r.state h).content more
  Exchange-latest old at_left at_right (quiet m n same_left same_right more) =
      Exchange-latest old (same_left ∙ at_left) (same_right ∙ at_right) more
