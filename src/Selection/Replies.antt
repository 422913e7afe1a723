-- ===== src/Selection/Replies.antt =====
-- How clipboard_selection_request.py and its helpers answer, where the X server takes every request.
use pclipsync.Base.{
  ℕ, ◌≡◌, refl, ◌||◌, Option, none, some, List, [], ◌∷◌, ◌==◌, if◌then◌else◌, inl, inr, Bool-cases,
}
use pclipsync.Exec.{Result, ok, ◌>>=◌, ◌>>◌}
use pclipsync.X11.{
  Bytes, Atom, WindowId, SelectionNotify, SelectionRequest, Request, change_property, send_event,
  Outside,
}
use pclipsync.State.{ClipboardState, asked, Accepts}
use pclipsync.Incr.{reply, needs_incr_transfer}
use pclipsync.Incr.Initiate.{initiate_incr_send_lem}
use pclipsync.Selection.{
  handle_targets_request, handle_content_request, handle_timestamp_request, send_selection_notify,
  answer_content, handle_selection_request,
}

-- The answers sent, each with the window that it is sent to, the last one first.
unfoldable pub notifies : List Request → List (WindowId × SelectionNotify)
notifies [] = []
notifies (send_event w n ∷ h) = (w, n) ∷ notifies h
notifies (_ ∷ h) = notifies h

-- The property named in the answer: none where the target is not supported, or the time of
-- acquisition is asked for and unknown.
abbrev pub answer_property : Outside → SelectionRequest → Option ℕ → Atom
answer_property O e acquisition_time =
    if e.target == O.targets_atom
    then e.property
    else if e.target == O.utf8_atom || e.target == O.string_atom
    then e.property
    else if e.target == O.timestamp_atom
    then elim acquisition_time [ none ↦ O.none_atom | some time ↦ e.property ]
    else O.none_atom

module _ (O : Outside) (A : Accepts O) (e : SelectionRequest) where
  abbrev Answered : Atom → ClipboardState → Result (Unit {0}) × ClipboardState → Type 0
  Answered property s r =
      (r.0 ≡ ok tt)
      × (notifies r.1.display.history
          ≡ (e.requestor, reply e property) ∷ notifies s.display.history)

  answer_content_lem :
      (content : Bytes) (incr_atom : Atom) (s : ClipboardState)
      → Answered e.property s (answer_content O e content incr_atom s)
  unfolding answer_content handle_content_request send_selection_notify notifies
  answer_content_lem content incr_atom s = elim (Bool-cases (needs_incr_transfer O content)) [
    | inl large ↦ rw (large, initiate_incr_send_lem O A e content incr_atom s) (refl, refl)
    | inr small ↦ rw small (simp A.takes (refl, refl))
  ]

  handle_targets_request_lem :
      (s : ClipboardState)
      → handle_targets_request O e s ≡ (
        ok tt,
        asked
            (change_property e.requestor e.property O.atom_atom 32
              (O.targets_atom ∷ O.utf8_atom ∷ O.string_atom ∷ O.timestamp_atom ∷ []))
            s,
      )
  unfolding handle_targets_request
  handle_targets_request_lem s = simp A.takes

  targets-Answered :
      (s : ClipboardState)
      → Answered e.property s ((do handle_targets_request O e; send_selection_notify O e) s)
  unfolding send_selection_notify notifies
  targets-Answered s = rw (handle_targets_request_lem s) (simp A.takes (refl, refl))

  timestamp-Answered :
      (acquisition_time : Option ℕ) (s : ClipboardState)
      → Answered
          (elim acquisition_time [ none ↦ O.none_atom | some time ↦ e.property ])
          s
          ((do e' ← handle_timestamp_request O e acquisition_time; send_selection_notify O e') s)
  unfolding handle_timestamp_request send_selection_notify notifies
  timestamp-Answered none s = simp A.takes (refl, refl)
  timestamp-Answered (some time) s = simp A.takes (refl, refl)

  refused :
      (s : ClipboardState)
      → Answered O.none_atom s (send_selection_notify O (record e { property = O.none_atom }) s)
  unfolding send_selection_notify notifies
  refused s = simp A.takes (refl, refl)

  -- On an X server that takes every request, a selection request raises nothing and gets exactly
  -- one answer, which is sent to its requestor, is for its requestor, selection, target and time,
  -- and names the property, or none where the target is not supported or the time asked for is
  -- unknown.
  pub handle_selection_request_lem :
      (content : Bytes) (acquisition_time : Option ℕ) (incr_atom : Atom) (s : ClipboardState)
      → Answered
          (answer_property O e acquisition_time)
          s
          (handle_selection_request O e content acquisition_time incr_atom s)
  unfolding handle_selection_request
  handle_selection_request_lem content acquisition_time incr_atom s =
      elim (Bool-cases (e.target == O.targets_atom)) [
        | inl targets ↦ rw targets (targets-Answered s)
        | inr other ↦ elim (Bool-cases (e.target == O.utf8_atom || e.target == O.string_atom)) [
          | inl text ↦ rw (other, text) (answer_content_lem content incr_atom s)
          | inr no_text ↦ elim (Bool-cases (e.target == O.timestamp_atom)) [
            | inl stamp ↦ rw (other, no_text, stamp) (timestamp-Answered acquisition_time s)
            | inr unknown ↦ rw (other, no_text, unknown) (refused s)
          ]
        ]
      ]
