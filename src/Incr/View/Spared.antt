-- ===== src/Incr/View/Spared.antt =====
-- Cancelling other transfers leaves a transfer alone, in clipboard_selection_incr_cleanup.py and
-- clipboard_selection_incr_handle.py.
use pclipsync.Base.{
  ℕ, ◌≡◌, refl, sym, ap, ◌∙◌, Bool, true, false, Option, none, some, List, [], ◌∷◌, arith, ◌==◌,
  if◌then◌else◌, Bool-cases, inl, inr,
}
use pclipsync.Base.Dict.{Key, key_eq, get, count_first}
use pclipsync.Exec.{other_error, Result, ok, raise}
use pclipsync.X11.{Bytes, Atom, WindowId, Outside}
use pclipsync.State.{IncrSendState, ClipboardState, Accepts}
use pclipsync.Incr.{
  Pending, cancel, cancel_all, is_stale, handle_destroy_event, cleanup_stale_incr_sends,
  cleanup_incr_sends_on_ownership_loss, is_for_selection,
}
use pclipsync.Incr.Chunks.{writes}
use pclipsync.Incr.Subscribe.{unsubscribe_incr_requestor_lem}
use pclipsync.Incr.Cleanup.{
  IsWellFormed, Cancels, without, cleanup_stale_incr_sends_lem, handle_destroy_event_lem,
  cleanup_incr_sends_on_ownership_loss_lem,
}
use pclipsync.State.Keeps.{Keeps, Keeps-pure, Keeps-answer, Keeps-bind}
use pclipsync.Incr.View.{view, writes-unsubscribing}

get-cons_ne :
    (w p x y : ℕ) (st : IncrSendState) (d : Pending)
    → key_eq (x, y) (w, p) ≡ false
    → get (w, p) (((x, y), st) ∷ d) ≡ get (w, p) d
unfolding get
get-cons_ne w p x y st d ne = ground arith

get-cons_eq :
    (w p x y : ℕ) (st : IncrSendState) (d : Pending)
    → key_eq (x, y) (w, p) ≡ true
    → get (w, p) (((x, y), st) ∷ d) ≡ some st
unfolding get
get-cons_eq w p x y st d eq = ground arith

get-without :
    (test : Key → IncrSendState → Bool) (w p : ℕ) (d : Pending)
    → ((st : IncrSendState) → get (w, p) d ≡ some st → test (w, p) st ≡ false)
    → get (w, p) (without test d) ≡ get (w, p) d
get-without test w p [] spared = refl
get-without test w p (((x, y), st) ∷ d) spared = elim (Bool-cases (key_eq (x, y) (w, p))) [
  | inl eq ↦
      let there = get-cons_eq w p x y st d eq in
      let same_x : x ≡ w = ground arith in
      let same_y : y ≡ p = ground arith in
      let kept : test (x, y) st ≡ false =
        ap (λ a. test (a, y) st) same_x ∙ ap (λ b. test (w, b) st) same_y ∙ spared st there in
      rw kept (get-cons_eq w p x y st (without test d) eq ∙ sym there)
  | inr ne ↦
      let on = get-without test w p d (λ st' g. spared st' (get-cons_ne w p x y st d ne ∙ g)) in
      kept_or (test (x, y) st) (on ∙ sym (get-cons_ne w p x y st d ne))
        (get-cons_ne w p x y st (without test d) ne ∙ on ∙ sym (get-cons_ne w p x y st d ne))
]
  where
    kept_or :
        (b : Bool)
        → get (w, p) (without test d) ≡ get (w, p) (((x, y), st) ∷ d)
        → get (w, p) (((x, y), st) ∷ without test d) ≡ get (w, p) (((x, y), st) ∷ d)
        → get (w, p) (if b then without test d else ((x, y), st) ∷ without test d)
          ≡ get (w, p) (((x, y), st) ∷ d)
    kept_or true h k = h
    kept_or false h k = k

record HasWrites (w p : ℕ) (ws : List Bytes) (own : WindowId) (s : ClipboardState) : Type 0 where
  pub has : writes w p s.display.history ≡ ws
  pub has_window : s.window ≡ own

module _ (O : Outside) (A : Accepts O) (w p : ℕ) (ws : List Bytes) (own : WindowId) where
  cancel-HasWrites :
      (o : Option IncrSendState) (key : Key) → Keeps (HasWrites w p ws own) (cancel O o key)
  unfolding cancel
  cancel-HasWrites none key = Keeps-answer (λ s. raise other_error)
  cancel-HasWrites (some st) (v, q) = record {
    at = λ s h. rw (unsubscribe_incr_requestor_lem O A st v q s) (record {
      has =
          writes-unsubscribing w p st.requestor (count_first v s.pending_incr_sends)
            s.display.history
          ∙ h.has;
      has_window = h.has_window;
    });
  }

  cancel_all-HasWrites : (keys : List Key) → Keeps (HasWrites w p ws own) (cancel_all O keys)
  unfolding cancel_all
  cancel_all-HasWrites [] = Keeps-pure tt
  cancel_all-HasWrites (key ∷ keys) =
      Keeps-bind _ _ (Keeps-answer (λ s. ok (get key s.pending_incr_sends)))
        λ o. Keeps-bind _ _ (cancel-HasWrites o key) λ _. cancel_all-HasWrites keys

module _ (O : Outside) (A : Accepts O) (w p : ℕ) (s : ClipboardState) (wf : IsWellFormed s) where
  -- Cancelling other transfers.
  view-spared :
      (test : Key → IncrSendState → Bool) (r : Result (Unit {0}) × ClipboardState)
      → Cancels test s r
      → writes w p r.1.display.history ≡ writes w p s.display.history
      → ((st : IncrSendState) → get (w, p) s.pending_incr_sends ≡ some st → test (w, p) st ≡ false)
      → view w p r.1 ≡ view w p s
  view-spared test r c same spared = λ i.
      ((ap (λ d. get (w, p) d) c.left ∙ get-without test w p s.pending_incr_sends spared) i, same i)

  pub view-cleanup_stale_incr_sends :
      ((st : IncrSendState)
        → get (w, p) s.pending_incr_sends ≡ some st
        → is_stale s.display.wall (w, p) st ≡ false)
      → view w p (cleanup_stale_incr_sends O s).1 ≡ view w p s
  unfolding cleanup_stale_incr_sends
  view-cleanup_stale_incr_sends fresh =
      view-spared _ (cleanup_stale_incr_sends O s) (cleanup_stale_incr_sends_lem O A s wf)
        ((cancel_all-HasWrites O A w p (writes w p s.display.history) s.window _).at s
          (record { has = refl; has_window = refl })).has
        fresh

  pub view-handle_destroy_event :
      (v : ℕ) → w == v ≡ false → view w p (handle_destroy_event O v s).1 ≡ view w p s
  unfolding handle_destroy_event
  view-handle_destroy_event v ne =
      view-spared _ (handle_destroy_event O v s) (handle_destroy_event_lem O A s wf v)
        ((cancel_all-HasWrites O A w p (writes w p s.display.history) s.window _).at s
          (record { has = refl; has_window = refl })).has
        (λ st g. ne)

  -- Losing a selection that the transfer is not of leaves the transfer and the own window alone.
  pub view-cleanup_incr_sends_on_ownership_loss :
      (a : Atom)
      → ((st : IncrSendState)
          → get (w, p) s.pending_incr_sends ≡ some st
          → is_for_selection a (w, p) st ≡ false)
      → (view w p (cleanup_incr_sends_on_ownership_loss O a s).1 ≡ view w p s)
        × ((cleanup_incr_sends_on_ownership_loss O a s).1.window ≡ s.window)
  unfolding cleanup_incr_sends_on_ownership_loss
  view-cleanup_incr_sends_on_ownership_loss a ne =
      let kept =
        (cancel_all-HasWrites O A w p (writes w p s.display.history) s.window _).at s
          (record { has = refl; has_window = refl }) in
      (
        view-spared _ (cleanup_incr_sends_on_ownership_loss O a s)
            (cleanup_incr_sends_on_ownership_loss_lem O A s wf a) kept.has ne,
        kept.has_window,
      )
