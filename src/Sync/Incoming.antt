-- ===== src/Sync/Incoming.antt =====
-- Content from the remote side, `handle_incoming_content` of sync_handlers.py: what it records.
use pclipsync.Base.{refl}
use pclipsync.Exec.{ok}
use pclipsync.HashState.{record_received}
use pclipsync.X11.{Bytes, Outside}
use pclipsync.State.{ClipboardState}
use pclipsync.State.Keeps.{Keeps-answer, Keeps-bind}
use pclipsync.Sync.{handle_incoming_content}
use pclipsync.Sync.Passive.{claim-Keeps, stamp_if_owner-Keeps}
use pclipsync.Sync.Silent.{network, IsSilent, IsSilent-Passive}

module _ (O : Outside) (c : Bytes) (s : ClipboardState) where
  -- Whatever the X server does and whatever is raised, handling an incoming content records its
  -- hash as received, changes no other hash and writes nothing to the socket.
  pub handle_incoming_content-records :
      IsSilent
        (network s.display.history)
        (record_received (O.sha256 c) s.hash_state)
        (handle_incoming_content O c s).1
  unfolding handle_incoming_content
  handle_incoming_content-records =
      let n = network s.display.history in
      let k = record_received (O.sha256 c) s.hash_state in
      let Q = IsSilent-Passive n k in
      (Keeps-bind _ _ (Keeps-answer (λ s. ok s.clipboard_atom)) λ clipboard_atom.
          Keeps-bind _ _ (claim-Keeps O Q clipboard_atom)
            λ _. Keeps-bind _ _ (claim-Keeps O Q O.primary_atom) λ _. stamp_if_owner-Keeps O Q).at
        _ (record { sent = refl; hashes = refl })
