-- ===== src/Delivery/Rounds.antt =====
-- A round of sync_loop_inner.py over the bytes of one message, and the session that it leaves.
use pclipsync.Base.{◌≡◌, refl, sym, ap, ◌∙◌, [], append-nil}
use pclipsync.Exec.{Result, ok, raise, pure, continue}
use pclipsync.Protocol.{Ending, encode_netstring}
use pclipsync.X11.{Bytes, Outside}
use pclipsync.Sync.{handle_incoming_content}
use pclipsync.SyncLoop.{Session, Outcome, stay, round}
use pclipsync.SyncLoop.Rounds.{IsMessage, read_wake, with_bytes, round_message}

left_by : (r : Result (Unit {0})) (s : Session) → (continue r (λ _. pure stay) s).1 ≡ s
left_by (ok u) s = refl
left_by (raise x) s = refl

-- The session that a round leaves, whether handling the content raised or not.
abbrev pub received : Outside → Bytes → Ending → Session → Session
received O c ending r = record (with_bytes [] ending r) {
  state = (handle_incoming_content O c r.state).1;
}

pub round-encode_netstring :
    (O : Outside) (c : Bytes) (ending : Ending) (r : Session)
    → IsMessage c
    → (round O read_wake (with_bytes (encode_netstring c) ending r)).1 ≡ received O c ending r
round-encode_netstring O c ending r h =
    ap (λ b. (round O read_wake (with_bytes b ending r)).1) (sym (append-nil (encode_netstring c)))
    ∙ ap (λ (x : Result Outcome × Session). x.1) (round_message O c [] ending r h)
    ∙ left_by (handle_incoming_content O c r.state).0 (received O c ending r)
