-- ===== src/Delivery.antt =====
-- Both sides together: what sync_handlers.py writes on one side, the loop of sync_loop_inner.py
-- reads on the other.
pub mod Runs
pub mod Rounds
pub mod Pasted
pub mod Agreement
pub mod Large
pub mod Sequence
pub mod Exchange
use pclipsync.Base.{◌≡◌, ◌⊎◌, inl, inr, List, [], ◌∷◌, append-nil, ap, sym, ◌∙◌}
use pclipsync.Exec.{Result, pure, continue}
use pclipsync.Protocol.{Bytes, Ending, encode_netstring}
use pclipsync.X11.{Atom, Outside}
use pclipsync.State.{ClipboardState}
use pclipsync.Sync.{handle_clipboard_change, handle_incoming_content}
use pclipsync.Sync.Silent.{network}
use pclipsync.Sync.Echo.{SentAtMostOne, handle_clipboard_change-sends}
use pclipsync.SyncLoop.{Session, Outcome, stay, round}
use pclipsync.SyncLoop.Rounds.{read_wake, with_bytes, round_message}

-- Handling a content that arrived in a session whose bytes are used up, and waiting for the next.
abbrev pub handles : Outside → Bytes → Ending → Session → Result Outcome × Session
handles O c ending s =
    continue (handle_incoming_content O c s.state).0 (λ _. pure stay)
      (record (with_bytes [] ending s) { state = (handle_incoming_content O c s.state).1 })

-- Nothing was written to the socket, or the encoding of one content, which a round of the other
-- side reads to the last byte and handles as an incoming content.
abbrev pub Delivered : Outside → Ending → Session → List Bytes → List Bytes → Type 0
Delivered O ending r before after =
    (after ≡ before)
    ⊎ ((c : Bytes) × (after ≡ encode_netstring c ∷ before)
        × (round O read_wake (with_bytes (encode_netstring c) ending r) ≡ handles O c ending r))

-- Whatever the X servers and the applications of both sides do, a local change on one side writes
-- nothing to the socket or one message, and a round of the other side in which only the read task
-- is done, with that message to read, reads it to the last byte and does exactly what handling its
-- content does.
pub handle_clipboard_change-Delivered :
    (O O' : Outside) (a : Atom) (s : ClipboardState) (ending : Ending) (r : Session)
    → Delivered O' ending r
        (network s.display.history)
        (network (handle_clipboard_change O a s).1.display.history)
handle_clipboard_change-Delivered O O' a s ending r = go (handle_clipboard_change-sends O a s)
  where
    go :
        SentAtMostOne O (network s.display.history) s.hash_state (handle_clipboard_change O a s).1
        → Delivered O' ending r
            (network s.display.history)
            (network (handle_clipboard_change O a s).1.display.history)
    go (inl silent) = inl silent
    go (inr (c, wrote, ne, fits, new)) = inr (
      c,
      wrote,
      ap (λ b. round O' read_wake (with_bytes b ending r)) (sym (append-nil (encode_netstring c)))
          ∙ round_message O' c [] ending r (ne, fits),
    )
