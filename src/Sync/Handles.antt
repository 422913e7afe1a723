-- ===== src/Sync/Handles.antt =====
-- What both handlers of sync_handlers.py keep: whatever passive actions keep, and what does not
-- depend on the bytes written to the socket, the hashes and the content.
use pclipsync.Base.{refl, Option, none, some, [], ◌∷◌}
use pclipsync.Exec.{ok, modify}
use pclipsync.HashState.{Digest, HashState, record_sent, record_received}
use pclipsync.Protocol.{encode_netstring}
use pclipsync.X11.{Bytes, Atom, write, drain, Outside}
use pclipsync.State.{ClipboardState, asked, perform}
use pclipsync.State.Keeps.{Keeps, Keeps-pure, Keeps-answer, Keeps-if, Keeps-bind}
use pclipsync.Wait.{get_other_selection}
use pclipsync.Sync.{
  send_if_new, accept_content, content_changed, handle_clipboard_change, handle_incoming_content,
}
use pclipsync.Sync.Quiet.{perform-Keeps, selection_owner-Keeps, read_clipboard_content-Keeps}
use pclipsync.Sync.Passive.{Passive, mirror-Keeps, claim-Keeps, stamp_if_owner-Keeps}

-- What a local change keeps, which records hashes as sent only.
pub record Changes (P : ClipboardState → Type 0) : Type 0 where
  pub passive : Passive P
  pub at_write : (bytes : Bytes) (s : ClipboardState) → P s → P (asked (write bytes) s)
  pub at_sent :
      (h : Digest) (s : ClipboardState)
      → P s
      → P (record s { hash_state = record_sent h s.hash_state })
  pub at_content : (c : Bytes) (s : ClipboardState) → P s → P (record s { current_content = c })

module _ (O : Outside) {P : ClipboardState → Type 0} (C : Changes P) where
  abbrev Q : Passive P
  Q = C.passive

  writes-Keeps : (bytes : Bytes) → Keeps P (perform O (write bytes))
  writes-Keeps bytes = record { at = C.at_write bytes }

  record_sent-Keeps :
      (h : Digest) → Keeps P (modify (λ s. record s { hash_state = record_sent h s.hash_state }))
  record_sent-Keeps h = record { at = C.at_sent h }

  set_content-Keeps : (c : Bytes) → Keeps P (modify (λ s. record s { current_content = c }))
  set_content-Keeps c = record { at = C.at_content c }

  send-Keeps : (c : Bytes) → Keeps P (send_if_new O c)
  unfolding send_if_new
  send-Keeps c = Keeps-bind _ _ (Keeps-answer (λ s. ok s.hash_state)) λ k.
      Keeps-if _ _ _ (Keeps-pure tt) (
        Keeps-bind _ _ (writes-Keeps (encode_netstring c)) λ _.
          Keeps-bind _ _ (perform-Keeps O Q.quiet drain refl) λ _. record_sent-Keeps (O.sha256 c))

  accept-Keeps : (a : Atom) (c : Bytes) → Keeps P (accept_content O a c)
  unfolding accept_content
  accept-Keeps a c = Keeps-bind _ _ (set_content-Keeps c) λ _.
      Keeps-bind _ _ (Keeps-answer (λ s. ok s.clipboard_atom)) λ clipboard_atom.
        Keeps-bind _ _ (mirror-Keeps O Q (get_other_selection O a clipboard_atom)) λ _. send-Keeps c

  changed-Keeps : (a : Atom) (c : Option Bytes) → Keeps P (content_changed O a c)
  unfolding content_changed
  changed-Keeps a none = Keeps-pure tt
  changed-Keeps a (some []) = Keeps-pure tt
  changed-Keeps a (some (b ∷ bs)) = search (Keeps-pure, Keeps-if, accept-Keeps)

  pub change-Keeps : (a : Atom) → Keeps P (handle_clipboard_change O a)
  unfolding handle_clipboard_change
  change-Keeps a = Keeps-bind _ _ (selection_owner-Keeps O Q.quiet a) λ owner.
      Keeps-bind _ _ (Keeps-answer (λ s. ok s.window)) λ window.
        Keeps-if _ _ _ (Keeps-pure tt)
          (Keeps-bind _ _ (read_clipboard_content-Keeps O Q.quiet a) λ c. changed-Keeps a c)

pub record Handles (P : ClipboardState → Type 0) : Type 0 where
  pub passive : Passive P
  pub at_write : (bytes : Bytes) (s : ClipboardState) → P s → P (asked (write bytes) s)
  pub at_hashes : (k : HashState) (s : ClipboardState) → P s → P (record s { hash_state = k })
  pub at_content : (c : Bytes) (s : ClipboardState) → P s → P (record s { current_content = c })

module _ (O : Outside) {P : ClipboardState → Type 0} (H : Handles P) where
  pub handle_clipboard_change-Keeps : (a : Atom) → Keeps P (handle_clipboard_change O a)
  handle_clipboard_change-Keeps a =
      change-Keeps O
        (record {
          passive = H.passive;
          at_write = H.at_write;
          at_sent = λ h s. H.at_hashes (record_sent h s.hash_state) s;
          at_content = H.at_content;
        })
        a

  pub handle_incoming_content-Keeps : (c : Bytes) → Keeps P (handle_incoming_content O c)
  unfolding handle_incoming_content
  handle_incoming_content-Keeps c =
      Keeps-bind
        (modify (λ s. record s {
          hash_state = record_received (O.sha256 c) s.hash_state;
          current_content = c;
          owned_selections = [];
        }))
        _
        (record {
          at = λ s p.
              H.passive.at_owned [] _
                (H.at_content c _ (H.at_hashes (record_received (O.sha256 c) s.hash_state) s p));
        })
        λ _. Keeps-bind _ _ (Keeps-answer (λ s. ok s.clipboard_atom)) λ clipboard_atom.
          Keeps-bind _ _ (claim-Keeps O H.passive clipboard_atom) λ _.
            Keeps-bind _ _ (claim-Keeps O H.passive O.primary_atom)
              λ _. stamp_if_owner-Keeps O H.passive
