-- ===== src/Sync/Sent.antt =====
-- A local change of the clipboard that can be read whole is sent: `handle_clipboard_change` of
-- sync_handlers.py with `read_clipboard_content` of clipboard_io.py.
use pclipsync.Base.{
  ◌≤◌, ◌≡◌, ◌≢◌, refl, ap, ◌∙◌, true, false, Option, some, List, [], ◌∷◌, arith, subst, leb, ◌==◌,
  length,
}
use pclipsync.Exec.{Result, ok}
use pclipsync.HashState.{HashState, should_send, record_sent}
use pclipsync.HashState.Laws.{should_send_iff}
use pclipsync.Protocol.{max_content_size, encode_netstring, validate_content_size}
use pclipsync.X11.{Bytes, Atom, Event, get_selection_owner, write, drain, Outside}
use pclipsync.State.{ClipboardState, asked, Accepts}
use pclipsync.Wait.{get_other_selection}
use pclipsync.ClipboardIo.{signal_deferred}
use pclipsync.Sync.Readable.{Readable, read_clipboard_content_lem}
use pclipsync.Sync.{mirror, send_if_new, accept_content, content_changed, handle_clipboard_change}
use pclipsync.Sync.Quiet.{read_clipboard_content-Keeps}
use pclipsync.Sync.Passive.{mirror-Keeps}
use pclipsync.Sync.Silent.{network, IsSilent, IsSilent-Passive}
use pclipsync.Sync.Returns.{NoneLost, Answers, mirror-returns}
use pclipsync.Sync.Content.{HasContent-Passive}

-- A content was written to the socket, behind what was there, is the one to serve, and its hash is
-- recorded as sent.
pub record IsSent (O : Outside) (c : Bytes) (n : List Bytes) (k : HashState) (t : ClipboardState)
    : Type 0 where
  pub wrote : network t.display.history ≡ encode_netstring c ∷ n
  pub content : t.current_content ≡ c
  pub recorded : t.hash_state ≡ record_sent (O.sha256 c) k

module _ (O : Outside) (A : Accepts O) where
  send_if_new_lem :
      (c : Bytes) (s : ClipboardState)
      → should_send s.hash_state (O.sha256 c) ≡ true
      → send_if_new O c s ≡ (
        ok tt,
        record (asked drain (asked (write (encode_netstring c)) s)) {
          hash_state = record_sent (O.sha256 c) s.hash_state;
        },
      )
  unfolding send_if_new
  send_if_new_lem c s new = simp (new, A.takes)

  send_if_new-IsSent :
      (c : Bytes) (s : ClipboardState)
      → should_send s.hash_state (O.sha256 c) ≡ true
      → s.current_content ≡ c
      → IsSent O c (network s.display.history) s.hash_state (send_if_new O c s).1
  unfolding network
  send_if_new-IsSent c s new same =
      rw (send_if_new_lem c s new) (record { wrote = refl; content = same; recorded = refl })

  signalled :
      (u : ClipboardState) → NoneLost u.display.polls → NoneLost (signal_deferred u).display.polls
  signalled u h = go u.deferred_events
    where
      go :
          (l : List Event)
          → NoneLost
              (elim l as (λ x. ClipboardState) [
                | [] ↦ u
                | _ ∷ _ ↦ record u { x11_event = true }
              ]).display.polls
      go [] = h
      go (e ∷ l) = h

  module _ (N : Answers O) where
    accepted :
        (a : Atom) (c : Bytes) (n : List Bytes) (k : HashState) (v : ClipboardState)
        → IsSilent n k v
        → NoneLost v.display.polls
        → should_send k (O.sha256 c) ≡ true
        → IsSent O c n k (accept_content O a c v).1
    unfolding accept_content
    accepted a c n k v p h new =
        let v' : ClipboardState = record v { current_content = c } in
        let b = get_other_selection O a v.clipboard_atom in
        let m = (mirror O b v').1 in
        let still =
          (mirror-Keeps O (IsSilent-Passive n k) b).at v'
            (record { sent = p.sent; hashes = p.hashes }) in
        let same = (mirror-Keeps O (HasContent-Passive c) b).at v' refl in
        let goes : should_send m.hash_state (O.sha256 c) ≡ true =
          ap (λ j. should_send j (O.sha256 c)) still.hashes ∙ new in
        let sent = send_if_new-IsSent c m goes same in
        rw (mirror-returns O A N b v' h) (record {
          wrote = sent.wrote ∙ ap (λ l. encode_netstring c ∷ l) still.sent;
          content = sent.content;
          recorded = sent.recorded ∙ ap (record_sent (O.sha256 c)) still.hashes;
        })

    changed :
        (a : Atom) (c : Bytes)
        → c ≢ []
        → length c ≤ max_content_size
        → (n : List Bytes) (k : HashState) (v : ClipboardState) → IsSilent n k v
        → NoneLost v.display.polls
        → should_send k (O.sha256 c) ≡ true
        → IsSent O c n k (content_changed O a (some c) v).1
    unfolding content_changed validate_content_size
    changed a [] ne fits n k v p h new = absurd (ne refl)
    changed a (b ∷ bs) ne fits n k v p h new =
        let valid : leb (length (b ∷ bs)) max_content_size ≡ true = ground arith in
        rw valid (accepted a (b ∷ bs) n k v p h new)

    -- On an X server that takes every request and always says who owns a selection, and where no
    -- look at the queue raises once the content is read: a local change of a selection that
    -- another window owns, whose content can be read, whole or by chunks, is not empty, within the
    -- limit and has a hash that is neither the last one sent nor the last one received, is written
    -- to the socket as one message, becomes the content to serve, and its hash is recorded as
    -- sent.
    pub handle_clipboard_change-IsSent :
        (a : Atom) (c : Bytes) (s : ClipboardState)
        → N.owner s.display.history a == s.window ≡ false
        → (q : Readable O a c (asked (get_selection_owner a) s)) → NoneLost q.read.display.polls
        → c ≢ []
        → length c ≤ max_content_size
        → s.hash_state.last_sent_hash ≢ some (O.sha256 c)
        → s.hash_state.last_received_hash ≢ some (O.sha256 c)
        → IsSent O c (network s.display.history) s.hash_state (handle_clipboard_change O a s).1
    unfolding handle_clipboard_change
    handle_clipboard_change-IsSent a c s other q later ne fits not_sent not_received =
        let s1 : ClipboardState = asked (get_selection_owner a) s in
        let n = network s.display.history in
        let e = read_clipboard_content_lem O A a c s1 q fits in
        let silent =
          (read_clipboard_content-Keeps O (IsSilent-Passive n s.hash_state).quiet a).at s1
            (record { sent = unfold network in refl; hashes = refl }) in
        rw (N.answers, other, e)
          (changed a c ne fits n s.hash_state (signal_deferred q.read)
            (subst (λ (r : Result (Option Bytes) × ClipboardState). IsSilent n s.hash_state r.1) e
              silent)
            (signalled q.read later)
            ((should_send_iff s.hash_state (O.sha256 c)).1 (not_sent, not_received)))
