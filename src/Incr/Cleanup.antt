-- ===== src/Incr/Cleanup.antt =====
-- clipboard_selection_incr_cleanup.py and the handling of destroyed requestors: which transfers
-- go, and that the well-formedness of the state is kept.
use pclipsync.Base.{
  ℕ, ◌≡◌, refl, sym, ap, ◌∙◌, subst, path_j, Bool, none, some, List, [], ◌∷◌, ◌++◌, append_assoc,
  arith, if◌then◌else◌, Bool-cases, inl, inr,
}
use pclipsync.Base.Dict.{Key, get, erase, NodupKeys, get-middle, erase-NodupKeys}
use pclipsync.Exec.{Result, ok}
use pclipsync.X11.{Atom, WindowId, Outside}
use pclipsync.State.{IncrSendState, ClipboardState, Accepts}
use pclipsync.Incr.{
  Pending, keys_where, is_requestor, is_stale, is_for_selection, cancel_all,
  unsubscribe_incr_requestor, handle_destroy_event, cleanup_stale_incr_sends,
  cleanup_incr_sends_on_ownership_loss,
}
use pclipsync.Incr.Subscribe.{
  IsTracked, unsubscribe_incr_requestor_lem, unsubscribe_incr_requestor-IsTracked,
}

-- Each transfer is kept under its own window and property.
abbrev pub IsKeyed : Pending → Type 0
IsKeyed [] = Unit
IsKeyed (((w, p), st) ∷ d) = (st.requestor ≡ w) × (st.property_atom ≡ p) × IsKeyed d

-- The transfers that do not satisfy a test, in their order.
abbrev pub without : (Key → IncrSendState → Bool) → Pending → Pending
without test [] = []
without test ((key, st) ∷ d) =
    let rest = without test d in if test key st then rest else (key, st) ∷ rest

pub record IsWellFormed (s : ClipboardState) : Type 0 where
  pub nodup : NodupKeys s.pending_incr_sends
  pub keyed : IsKeyed s.pending_incr_sends
  pub tracked : IsTracked s

module _ (O : Outside) (A : Accepts O) (test : Key → IncrSendState → Bool) where
  abbrev Cancelled : Pending → Result (Unit {0}) × ClipboardState → Type 0
  Cancelled d r = (r.0 ≡ ok tt) × (r.1.pending_incr_sends ≡ d) × IsTracked r.1

  cancel_all_step :
      (key : Key) (keys : List Key) (st : IncrSendState) (s : ClipboardState)
      → get key s.pending_incr_sends ≡ some st
      → cancel_all O (key ∷ keys) s ≡ cancel_all O keys (unsubscribe_incr_requestor O st key s).1
  unfolding cancel_all
  cancel_all_step (w, p) keys st s g = rw (g, unsubscribe_incr_requestor_lem O A st w p s)

  pending-unsubscribe :
      (key : Key) (st : IncrSendState) (s : ClipboardState)
      → (unsubscribe_incr_requestor O st key s).1.pending_incr_sends
        ≡ erase key s.pending_incr_sends
  pending-unsubscribe (w, p) st s = rw (unsubscribe_incr_requestor_lem O A st w p s)

  pub kept-IsTracked :
      (w p : ℕ) (st : IncrSendState) (s : ClipboardState)
      → st.requestor ≡ w
      → get (w, p) s.pending_incr_sends ≡ some st
      → IsTracked s
      → IsTracked (unsubscribe_incr_requestor O st (w, p) s).1
  kept-IsTracked w p st s =
      path_j
        (λ v _.
          get (v, p) s.pending_incr_sends ≡ some st
          → IsTracked s
          → IsTracked (unsubscribe_incr_requestor O st (v, p) s).1)
        (unsubscribe_incr_requestor-IsTracked O A st p s)

  -- Entries that were passed over stay in front.
  cancel_where :
      (kept rest : Pending) (s : ClipboardState)
      → s.pending_incr_sends ≡ kept ++ rest
      → NodupKeys (kept ++ rest)
      → IsKeyed rest
      → IsTracked s
      → Cancelled (kept ++ without test rest) (cancel_all O (keys_where test rest) s)
  cancel_where kept [] s e u k t =
      (unfold cancel_all in refl, unfold cancel_all in e, unfold cancel_all in t)
  cancel_where kept (((w, p), st) ∷ rest) s e u k t =
      let (found, erased) = get-middle (w, p) st kept rest u in
      let g : get (w, p) s.pending_incr_sends ≡ some st =
        subst (λ d. get (w, p) d ≡ some st) (sym e) found in
      let left : (unsubscribe_incr_requestor O st (w, p) s).1.pending_incr_sends ≡ kept ++ rest =
        pending-unsubscribe (w, p) st s ∙ ap (erase (w, p)) e ∙ erased in
      elim (Bool-cases (test (w, p) st)) [
        | inl gone ↦
            rw (gone, cancel_all_step (w, p) (keys_where test rest) st s g)
              (cancel_where kept rest (unsubscribe_incr_requestor O st (w, p) s).1 left
                (subst (λ d. NodupKeys d) erased (erase-NodupKeys (w, p) _ u)) k.2
                (kept-IsTracked w p st s k.0 g t))
        | inr stays ↦
            rw (stays, ← append_assoc kept (((w, p), st) ∷ []) (without test rest))
              (cancel_where (kept ++ ((w, p), st) ∷ []) rest s
                (e ∙ sym (append_assoc kept (((w, p), st) ∷ []) rest))
                (subst (λ d. NodupKeys d) (sym (append_assoc kept (((w, p), st) ∷ []) rest)) u) k.2
                t)
      ]

get-without-none :
    (test : Key → IncrSendState → Bool) (k : Key) (d : Pending)
    → get k d ≡ none
    → get k (without test d) ≡ none
unfolding get
get-without-none test k [] h = refl
get-without-none test (a, b) (((x, y), st) ∷ d) h = ground (arith, get-without-none test (a, b) d)

without-NodupKeys :
    (test : Key → IncrSendState → Bool) (d : Pending) → NodupKeys d → NodupKeys (without test d)
without-NodupKeys test [] u = tt
without-NodupKeys test ((k, st) ∷ d) u =
    ground (arith, without-NodupKeys test d, get-without-none test k d)

without-IsKeyed :
    (test : Key → IncrSendState → Bool) (d : Pending) → IsKeyed d → IsKeyed (without test d)
without-IsKeyed test [] k = tt
without-IsKeyed test (((w, p), st) ∷ d) k = ground (arith, without-IsKeyed test d)

-- A run that returns, and that has cancelled the transfers that satisfy a test and no others, with
-- the state still well formed: so the masks of windows left without a transfer are cleared.
pub record Cancels (test : Key → IncrSendState → Bool) (s : ClipboardState)
    (r : Result (Unit {0}) × ClipboardState) : Type 0 where
  pub returned : r.0 ≡ ok tt
  pub left : r.1.pending_incr_sends ≡ without test s.pending_incr_sends
  pub well_formed : IsWellFormed r.1

module _ (O : Outside) (A : Accepts O) (s : ClipboardState) (wf : IsWellFormed s) where
  cancel_all-keys_where :
      (test : Key → IncrSendState → Bool)
      → Cancels test s (cancel_all O (keys_where test s.pending_incr_sends) s)
  cancel_all-keys_where test =
      let d = s.pending_incr_sends in
      let (ran, left, tracked) = cancel_where O A test [] d s refl wf.nodup wf.keyed wf.tracked in
      record {
        returned = ran;
        left = left;
        well_formed = record {
          nodup = subst (λ e. NodupKeys e) (sym left) (without-NodupKeys test d wf.nodup);
          keyed = subst (λ e. IsKeyed e) (sym left) (without-IsKeyed test d wf.keyed);
          tracked = tracked;
        };
      }

  -- On an X server that takes every request, from a well-formed state, the clean-up of stale
  -- transfers raises nothing, removes exactly the transfers that are older than the limit, keeps
  -- the others in order and leaves a well-formed state.
  pub cleanup_stale_incr_sends_lem :
      Cancels (is_stale s.display.wall) s (cleanup_stale_incr_sends O s)
  unfolding cleanup_stale_incr_sends
  cleanup_stale_incr_sends_lem = cancel_all-keys_where (is_stale s.display.wall)

  -- On an X server that takes every request, from a well-formed state, losing a selection raises
  -- nothing, cancels exactly the transfers of that selection, keeps the others in order and leaves
  -- a well-formed state.
  pub cleanup_incr_sends_on_ownership_loss_lem :
      (atom : Atom)
      → Cancels (is_for_selection atom) s (cleanup_incr_sends_on_ownership_loss O atom s)
  unfolding cleanup_incr_sends_on_ownership_loss
  cleanup_incr_sends_on_ownership_loss_lem atom = cancel_all-keys_where (is_for_selection atom)

  -- On an X server that takes every request, from a well-formed state, the end of a window raises
  -- nothing, cancels exactly the transfers to it, keeps the others in order and leaves a
  -- well-formed state.
  pub handle_destroy_event_lem :
      (w : WindowId) → Cancels (is_requestor w) s (handle_destroy_event O w s)
  unfolding handle_destroy_event
  handle_destroy_event_lem w = cancel_all-keys_where (is_requestor w)
