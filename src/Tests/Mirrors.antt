-- ===== src/Tests/Mirrors.antt =====
-- A local copy of which the other selection gets the content, at concrete values.
use pclipsync.Base.{refl, some, inl, [], ◌∷◌, arith, List}
use pclipsync.Base.Dict.{count_first}
use pclipsync.Exec.{ok}
use pclipsync.X11.{WindowId, Request, set_selection_owner, flush, buffer, selection_notify, Outside}
use pclipsync.State.{ClipboardState, Accepts}
use pclipsync.Incr.Subscribe.{subscribed}
use pclipsync.Sync.{discard}
use pclipsync.Sync.Readable.{whole}
use pclipsync.Sync.Returns.{Answers}
use pclipsync.Sync.Ownership.{Grants, Owns}
use pclipsync.SyncLoop.{lose_ownership}
use pclipsync.SyncLoop.Copied.{Copies, copied}
use pclipsync.SyncLoop.Owned.{copied-Owns}
use pclipsync.Tests.Samples.{outside}
use pclipsync.Tests.Copies.{ab, announced, asked_owner, notified, taken}

-- A window that has just asked for a selection owns it, and before that another one does.
abbrev given : List Request → WindowId
given (flush ∷ set_selection_owner w a ∷ h) = w
given _ = 7

abbrev granting : Outside
granting = record outside { selection_owner = λ h a. ok (given h) }

abbrev granting_takes : Accepts granting
granting_takes = record { takes = λ h r. refl }

grants : Grants granting 8
grants = record { grants = λ h a. refl }

says_owner : Answers granting
says_owner = record { owner = λ h a. given h; answers = λ h a. refl }

-- The window owned CLIPBOARD.
abbrev owning : ClipboardState
owning = record announced { owned_selections = 100 ∷ [] }

takes_other : Copies granting says_owner 100 9 ab owning
unfolding pclipsync.Wait.wait_for_event_type pclipsync.Wait.wait_loop pclipsync.Wait.has_type
    lose_ownership pclipsync.Incr.cleanup_incr_sends_on_ownership_loss subscribed count_first
    discard says_owner
takes_other = record {
  well_formed = record { nodup = tt; keyed = tt; tracked = record { tracks = λ w. refl } };
  is_other = refl;
  still_other = refl;
  readable = record {
    owner = 7;
    event = selection_notify;
    notified = notified granting (asked_owner (lose_ownership granting 100 owning).1);
    read = taken granting (asked_owner (lose_ownership granting 100 owning).1);
    has_owner = refl;
    is_owner = refl;
    notifies = refl;
    holds = whole (buffer 31 ab) refl refl refl refl;
  };
  later = tt;
  message = (cc, omega arith);
}

copied-Owns_example : Owns ab (1 ∷ []) (copied granting 100 9 owning)
unfolding pclipsync.Sync.add pclipsync.Base.contains discard
copied-Owns_example =
    copied-Owns granting granting_takes says_owner 100 1 9 ab owning (cc) (inl (refl, refl))
      takes_other grants
