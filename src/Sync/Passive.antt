-- ===== src/Sync/Passive.antt =====
-- Reading the clipboard and taking a selection (clipboard_io.py, clipboard_events.py and
-- selection_utils.py) keep what speaks only of the socket, of the hashes, of transfers and of the
-- event masks of other windows.
use pclipsync.Base.{ℕ, Option, List, [], ◌∷◌}
use pclipsync.Exec.{ok, pure}
use pclipsync.X11.{Atom, Outside}
use pclipsync.State.{ClipboardState}
use pclipsync.State.Keeps.{Keeps, Keeps-pure, Keeps-answer, Keeps-if, Keeps-bind}
use pclipsync.Sync.Quiet.{Quiet, set_clipboard_content-Keeps, get_server_timestamp-Keeps}
use pclipsync.Sync.{own, stamp, mirror, claim, stamp_if_owner}

-- What does not depend on the selections owned and their time either.
pub record Passive (P : ClipboardState → Type 0) : Type 0 where
  pub quiet : Quiet P
  pub at_owned : (l : List Atom) (s : ClipboardState) → P s → P (record s { owned_selections = l })
  pub at_time : (t : Option ℕ) (s : ClipboardState) → P s → P (record s { acquisition_time = t })

module _ (O : Outside) {P : ClipboardState → Type 0} (Q : Passive P) where
  pub own-Keeps : (a : Atom) → Keeps P (own O a)
  unfolding own
  own-Keeps a = record { at = λ s. Q.at_owned _ s }

  pub stamp-Keeps : Keeps P (stamp O)
  unfolding stamp
  stamp-Keeps =
      Keeps-bind _ _ (get_server_timestamp-Keeps O Q.quiet)
        λ time. record { at = λ s. Q.at_time time s }

  pub mirror-Keeps : (a : Atom) → Keeps P (mirror O a)
  unfolding mirror
  mirror-Keeps a =
      search
        (
          Keeps-bind, Keeps-if, Keeps-pure, set_clipboard_content-Keeps, Q.quiet, own-Keeps,
          stamp-Keeps,
        )
        depth 8

  pub claim-Keeps : (a : Atom) → Keeps P (claim O a)
  unfolding claim
  claim-Keeps a =
      search (Keeps-bind, Keeps-if, Keeps-pure, set_clipboard_content-Keeps, Q.quiet, own-Keeps)

  stamp_of : (owned : List Atom) → Keeps P (elim owned [ [] ↦ pure tt | _ ∷ _ ↦ stamp O ])
  stamp_of [] = Keeps-pure tt
  stamp_of (a ∷ owned) = stamp-Keeps

  pub stamp_if_owner-Keeps : Keeps P (stamp_if_owner O)
  unfolding stamp_if_owner
  stamp_if_owner-Keeps =
      Keeps-bind _ _ (Keeps-answer (λ s. ok s.owned_selections)) λ owned. stamp_of owned
