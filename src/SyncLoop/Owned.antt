-- ===== src/SyncLoop/Owned.antt =====
-- Which selections the window has once another application has taken one: the event of
-- sync_loop_inner.py, with the clean-up of clipboard_selection_incr_cleanup.py.
use pclipsync.Base.{◌≡◌, ◌≢◌, refl, sym, subst, ap, Option, none, some, List, [], ◌∷◌}
use pclipsync.Base.Dict.{Key, get}
use pclipsync.Exec.{Result, other_error, ok, raise, modify, ◌>>◌}
use pclipsync.HashState.{clear_sent_hash, clear_received_hash}
use pclipsync.X11.{Bytes, Atom, WindowId, Request, Outside}
use pclipsync.State.{IncrSendState, ClipboardState, perform, Accepts}
use pclipsync.State.Keeps.{Keeps, Keeps-pure, Keeps-answer, Keeps-if, Keeps-bind}
use pclipsync.Incr.{
  unsubscribe_requestor_events, unsubscribe_incr_requestor, cancel, cancel_all,
  cleanup_incr_sends_on_ownership_loss,
}
use pclipsync.Sync.{add, discard, handle_clipboard_change}
use pclipsync.Sync.Returns.{Answers}
use pclipsync.Sync.Ownership.{Grants, Owns}
use pclipsync.Sync.Mirrored.{HasSelections, same, IsPair, handle_clipboard_change-Owns}
use pclipsync.SyncLoop.{lose_ownership}
use pclipsync.SyncLoop.Copied.{Copies, copied, handle_event-changed}

module _ (O : Outside) (w : WindowId) (k : Atom) (l : List Atom) where
  asks : (r : Request) → Keeps (HasSelections w k l) (perform O r)
  asks r = record { at = λ s. same w k l s _ refl refl refl }

  untouched :
      (f : ClipboardState → ClipboardState)
      → ((s : ClipboardState) → s.window ≡ (f s).window)
      → ((s : ClipboardState) → s.clipboard_atom ≡ (f s).clipboard_atom)
      → ((s : ClipboardState) → s.owned_selections ≡ (f s).owned_selections)
      → Keeps (HasSelections w k l) (modify f)
  untouched f e g h = record { at = λ s. same w k l s (f s) (e s) (g s) (h s) }

  ruleset rules = (Keeps-pure, Keeps-answer, Keeps-if, Keeps-bind, asks, untouched, refl)

  unsubscribe-Keeps :
      (st : IncrSendState) (key : Key)
      → Keeps (HasSelections w k l) (unsubscribe_incr_requestor O st key)
  unfolding unsubscribe_incr_requestor unsubscribe_requestor_events
  unsubscribe-Keeps st (v, p) = search rules depth 12

  cancel-Keeps :
      (found : Option IncrSendState) (key : Key) → Keeps (HasSelections w k l) (cancel O found key)
  unfolding cancel
  cancel-Keeps none key = Keeps-answer (λ s. raise other_error)
  cancel-Keeps (some st) key = unsubscribe-Keeps st key

  cancel_all-Keeps : (keys : List Key) → Keeps (HasSelections w k l) (cancel_all O keys)
  unfolding cancel_all
  cancel_all-Keeps [] = search rules
  cancel_all-Keeps (key ∷ keys) =
      Keeps-bind _ _ (Keeps-answer (λ s. ok (get key s.pending_incr_sends)))
        λ found. Keeps-bind _ _ (cancel-Keeps found key) λ _. cancel_all-Keeps keys

  lost-Keeps : (a : Atom) → Keeps (HasSelections w k l) (cleanup_incr_sends_on_ownership_loss O a)
  unfolding cleanup_incr_sends_on_ownership_loss
  lost-Keeps a = search (rules, cancel_all-Keeps)

  -- What follows the discarding of the selection.
  forget-Keeps :
      (a : Atom)
      → Keeps (HasSelections w k l) (do
        cleanup_incr_sends_on_ownership_loss O a
        modify (λ s. record s { hash_state = clear_sent_hash (clear_received_hash s.hash_state) })
        modify (λ s. record s {
          acquisition_time = elim s.owned_selections [ [] ↦ none | _ ∷ _ ↦ s.acquisition_time ];
        }))
  forget-Keeps a = search (rules, lost-Keeps)

-- The selection that is lost is owned no more.
lose_ownership-HasSelections :
    (O : Outside) (a : Atom) (s : ClipboardState)
    → HasSelections s.window s.clipboard_atom
        (discard a s.owned_selections)
        (lose_ownership O a s).1
unfolding lose_ownership
lose_ownership-HasSelections O a s =
    let l = discard a s.owned_selections in
    (forget-Keeps O s.window s.clipboard_atom l a).at (record s { owned_selections = l })
      (record { window = refl; clipboard = refl; owned = refl })

module _ (O : Outside) (A : Accepts O) (N : Answers O) where
  -- On an X server that takes every request, always says who owns a selection and gives one to the
  -- window that asks for it, and where CLIPBOARD and PRIMARY differ: if another application takes
  -- one of the two while the state is well formed, with a content that can be read, is not empty
  -- and within the limit, and no look at the queue behind it raises, then handling the event makes
  -- that content the one to serve, gives up the one of the two and takes the other, and keeps what
  -- else is owned, whatever becomes of the server's time.
  pub copied-Owns :
      (a b : Atom) (owner : WindowId) (c : Bytes) (s : ClipboardState)
      → s.clipboard_atom ≢ O.primary_atom
      → IsPair O s.clipboard_atom a b
      → Copies O N a owner c s
      → Grants O s.window
      → Owns c (add b (discard a s.owned_selections)) (copied O a owner s)
  copied-Owns a b owner c s ne pair h g =
      let v = (lose_ownership O a s).1 in
      let p = lose_ownership-HasSelections O a s in
      let mirrored =
        handle_clipboard_change-Owns O A a b (N.owner v.display.history a) c v (rw p.clipboard ne)
          (rw p.clipboard pair) (N.answers v.display.history a) h.still_other h.readable h.message.0
          h.message.1 (rw p.window g) in
      subst (λ t. Owns c (add b (discard a s.owned_selections)) t)
        (sym (
          ap (λ (r : Result (Unit {0}) × ClipboardState). r.1)
            (handle_event-changed O A a owner s h.well_formed h.is_other)))
        (subst (λ l. Owns c (add b l) (handle_clipboard_change O a v).1) p.owned mirrored)
