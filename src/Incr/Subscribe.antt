-- ===== src/Incr/Subscribe.antt =====
-- clipboard_selection_incr_subscribe.py: whose events are subscribed. The program keeps the event
-- mask of a window set exactly while the window has a transfer in progress.
use pclipsync.Base.{
  ℕ, ◌≡◌, Bool, true, false, some, List, [], ◌∷◌, arith, ltb, ◌==◌, if◌then◌else◌, Bool-cases, inl,
  inr,
}
use pclipsync.Base.Dict.{get, erase, count_first, count_first-erase, count_first_pos}
use pclipsync.Exec.{ok}
use pclipsync.X11.{
  Atom, WindowId, EventMask, no_events, property_and_structure, Request, change_attributes, flush,
  Outside,
}
use pclipsync.State.{IncrSendState, ClipboardState, with_pending, Accepts}
use pclipsync.Incr.{unsubscribe_requestor_events, unsubscribe_incr_requestor}

abbrev is_subscribed : EventMask → Bool
is_subscribed property_and_structure = true
is_subscribed _ = false

-- Whether the last event mask that was set on a window selects its events.
unfoldable pub subscribed : WindowId → List Request → Bool
subscribed w [] = false
subscribed w (change_attributes v mask ∷ h) = if v == w then is_subscribed mask else subscribed w h
subscribed w (_ ∷ h) = subscribed w h

-- What removing a transfer asks of the X server.
abbrev pub unsubscribing : WindowId → ℕ → List Request → List Request
unsubscribing w count h = if count == 1 then flush ∷ change_attributes w no_events ∷ h else h

abbrev pub with_history : List Request → ClipboardState → ClipboardState
with_history h s = record s { display = record s.display { history = h } }

module _ (O : Outside) (A : Accepts O) where
  pub unsubscribe_incr_requestor_lem :
      (st : IncrSendState) (w p : ℕ) (s : ClipboardState)
      → unsubscribe_incr_requestor O st (w, p) s ≡ (
        ok tt,
        with_pending (erase (w, p) s.pending_incr_sends) (
            with_history
              (unsubscribing st.requestor (count_first w s.pending_incr_sends) s.display.history)
              s),
      )
  unfolding unsubscribe_incr_requestor unsubscribe_requestor_events
  unsubscribe_incr_requestor_lem st w p s =
      elim (Bool-cases (count_first w s.pending_incr_sends == 1)) [
        | inl last ↦ rw last (simp A.takes)
        | inr more ↦ rw more
      ]

-- Every window's event mask is set exactly while it has a transfer in progress.
pub record IsTracked (s : ClipboardState) : Type 0 where
  pub tracks :
      (w : WindowId) → subscribed w s.display.history ≡ ltb 0 (count_first w s.pending_incr_sends)

subscribed-unsubscribing :
    (w u count : ℕ) (h : List Request)
    → subscribed u (unsubscribing w count h)
      ≡ (if w == u then (if count == 1 then false else subscribed u h) else subscribed u h)
unfolding subscribed
subscribed-unsubscribing w u count h = ground arith

module _ (O : Outside) (A : Accepts O) where
  -- On an X server that takes every request, removing a listed transfer keeps this: a window's
  -- event mask is set exactly if it has a transfer.
  pub unsubscribe_incr_requestor-IsTracked :
      (st : IncrSendState) (p : Atom) (s : ClipboardState)
      → get (st.requestor, p) s.pending_incr_sends ≡ some st
      → IsTracked s
      → IsTracked (unsubscribe_incr_requestor O st (st.requestor, p) s).1
  unsubscribe_incr_requestor-IsTracked st p s g t =
      rw (unsubscribe_incr_requestor_lem O A st st.requestor p s) (record {
        tracks = λ u.
            let w = st.requestor in
            let d = s.pending_incr_sends in
            ground (
              arith,
              subscribed-unsubscribing w u (count_first w d) s.display.history,
              t.tracks u,
              t.tracks w,
              count_first-erase w p u d {v = st},
              count_first_pos w p d {v = st},
            );
      })
