-- ===== src/Sync.antt =====
-- src/pclipsync/sync_handlers.py and clipboard_events.py: a local change is read, mirrored and sent
-- to the remote side, and what comes from there is set on both selections.
pub mod Quiet
pub mod Passive
pub mod Handles
pub mod Silent
pub mod Echo
pub mod Incoming
pub mod Ownership
pub mod Content
pub mod Readable
pub mod Returns
pub mod Sent
pub mod Mirrored
use pclipsync.Base.{
  ℕ, ◌≡◌, Bool, true, false, not, Option, none, some, List, [], ◌∷◌, ◌++◌, ◌==◌, if◌then◌else◌,
  contains,
}
use pclipsync.Exec.{
  Exn, Result, ok, raise, Exec, pure, throw, gets, modify, catch, continue, ◌>>=◌, ◌>>◌,
}
use pclipsync.HashState.{compute_hash, HashState, should_send, record_sent, record_received}
use pclipsync.Protocol.{encode_netstring, validate_content_size}
use pclipsync.X11.{
  Bytes, Atom, WindowId, Request, set_selection_owner, flush, write, drain, Outside,
}
use pclipsync.State.{ClipboardState, Io, perform, selection_owner}
use pclipsync.Wait.{get_other_selection, get_server_timestamp}
use pclipsync.ClipboardIo.{or_else, read_clipboard_content}

-- `set.add` and `set.discard`, on a list without repetitions.
unfoldable pub add : Atom → List Atom → List Atom
add a s = if contains a s then s else a ∷ s

unfoldable pub discard : Atom → List Atom → List Atom
discard a [] = []
discard a (x ∷ s) = let rest = discard a s in if x == a then rest else x ∷ rest

module _ (O : Outside) where
  unfoldable pub set_clipboard_content : Atom → Io Bool
  set_clipboard_content selection_atom =
      catch
        (do
          window ← gets (λ s. s.window)
          perform O (set_selection_owner window selection_atom)
          perform O flush
          owner ← selection_owner O selection_atom
          pure (owner == window))
        (or_else false)

  unfoldable pub own : Atom → Io (Unit {0})
  own atom = modify (λ s. record s { owned_selections = add atom s.owned_selections })

  unfoldable pub stamp : Io (Unit {0})
  stamp = do time ← get_server_timestamp O; modify (λ s. record s { acquisition_time = time })

  -- The other selection gets the content too; a failure is only logged.
  unfoldable pub mirror : Atom → Io (Unit {0})
  unfolding own stamp
  mirror other_atom = do
    taken ← set_clipboard_content other_atom
    if taken then (do own other_atom; stamp) else pure tt

  unfoldable pub send_if_new : Bytes → Io (Unit {0})
  send_if_new content = do
    hash_state ← gets (λ s. s.hash_state)
    let current_hash = compute_hash O content
    if not (should_send hash_state current_hash) then pure tt else do
      perform O (write (encode_netstring content))
      perform O drain
      modify (λ s. record s { hash_state = record_sent current_hash s.hash_state })

  unfoldable pub accept_content : Atom → Bytes → Io (Unit {0})
  accept_content selection_atom content = do
    modify (λ s. record s { current_content = content })
    clipboard_atom ← gets (λ s. s.clipboard_atom)
    mirror (get_other_selection O selection_atom clipboard_atom)
    send_if_new content

  -- Nothing, or empty content, or content over the limit is skipped.
  unfoldable pub content_changed : Atom → Option Bytes → Io (Unit {0})
  unfolding accept_content
  content_changed selection_atom none = pure tt
  content_changed selection_atom (some []) = pure tt
  content_changed selection_atom (some (b ∷ bs)) =
      if validate_content_size (b ∷ bs) then accept_content selection_atom (b ∷ bs) else pure tt

  unfoldable pub handle_clipboard_change : Atom → Io (Unit {0})
  handle_clipboard_change selection_atom = do
    owner ← selection_owner O selection_atom
    window ← gets (λ s. s.window)
    if owner == window then pure tt else do
      content ← read_clipboard_content O selection_atom
      content_changed selection_atom content

  unfoldable pub claim : Atom → Io (Unit {0})
  unfolding own
  claim atom = do taken ← set_clipboard_content atom; if taken then own atom else pure tt

  unfoldable pub stamp_if_owner : Io (Unit {0})
  unfolding stamp
  stamp_if_owner = do
    owned ← gets (λ s. s.owned_selections)
    elim owned [ [] ↦ pure tt | _ ∷ _ ↦ stamp ]

  -- The hash is recorded before the clipboard is set.
  unfoldable pub handle_incoming_content : Bytes → Io (Unit {0})
  unfolding claim stamp_if_owner
  handle_incoming_content content = do
    modify (λ s. record s {
      hash_state = record_received (compute_hash O content) s.hash_state;
      current_content = content;
      owned_selections = [];
    })
    clipboard_atom ← gets (λ s. s.clipboard_atom)
    claim clipboard_atom
    claim O.primary_atom
    stamp_if_owner
