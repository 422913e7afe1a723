-- ===== src/SyncLoop/Keeps.antt =====
-- What the handlers of sync_loop_inner.py keep of the state, a round keeps too, up to its shutdown.
use pclipsync.Base.{Bool, true, false}
use pclipsync.Exec.{modify}
use pclipsync.Protocol.{read_netstring}
use pclipsync.X11.{Bytes, Outside}
use pclipsync.State.{ClipboardState, Io}
use pclipsync.State.Keeps.{Keeps, Keeps-pure, Keeps-if, Keeps-bind}
use pclipsync.Sync.{handle_incoming_content}
use pclipsync.SyncLoop.{
  process_x11_events, Session, stay, leave, on_state, on_reader, x11_round, deliver, read_round,
}

pub on_state-Keeps :
    {P : ClipboardState → Type 0} {B : Type 0} (m : Io B)
    → Keeps P m
    → Keeps {S = Session} (λ s. P s.state) (on_state m)
on_state-Keeps m k = record { at = λ s. k.at s.state }

-- What both handlers keep, and what does not speak of the signal between tasks.
pub record Handled (O : Outside) (P : ClipboardState → Type 0) : Type 0 where
  pub at_x11 : Keeps P (process_x11_events O)
  pub at_incoming : (c : Bytes) → Keeps P (handle_incoming_content O c)
  pub at_clear : Keeps P (modify (λ s. record s { x11_event = false }))

module _ (O : Outside) {P : ClipboardState → Type 0} (H : Handled O P) where
  pub x11_round-Keeps : (b : Bool) → Keeps {S = Session} (λ s. P s.state) (x11_round O b)
  unfolding x11_round
  x11_round-Keeps false = Keeps-pure tt
  x11_round-Keeps true = on_state-Keeps _ (Keeps-bind _ _ H.at_clear λ _. H.at_x11)

  deliver-Keeps : (c : Bytes) → Keeps {S = Session} (λ s. P s.state) (deliver O c)
  unfolding deliver
  deliver-Keeps c =
      Keeps-if _ _ _ (Keeps-pure leave)
        (Keeps-bind _ _ (on_state-Keeps _ (H.at_incoming c)) λ _. Keeps-pure stay)

  pub read_round-Keeps : (b : Bool) → Keeps {S = Session} (λ s. P s.state) (read_round O b)
  unfolding read_round
  read_round-Keeps false = Keeps-pure stay
  read_round-Keeps true =
      Keeps-bind (on_reader read_netstring) _ (record { at = λ s p. p }) λ c. deliver-Keeps c
