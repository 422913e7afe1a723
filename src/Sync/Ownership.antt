-- ===== src/Sync/Ownership.antt =====
-- What `handle_incoming_content` of sync_handlers.py leaves on an X server that gives the selections.
use pclipsync.Base.{
  ℕ, ◌≡◌, ◌≢◌, refl, Bool, true, false, List, [], ◌∷◌, ◌++◌, arith, ◌==◌, contains, if◌then◌else◌,
}
use pclipsync.Exec.{ok, pure}
use pclipsync.X11.{
  Bytes, Atom, WindowId, Request, get_selection_owner, set_selection_owner, flush, Event, Outside,
}
use pclipsync.HashState.{compute_hash, record_received}
use pclipsync.State.{ClipboardState, asked, Accepts}
use pclipsync.State.Keeps.{Keeps, Keeps-pure, Keeps-answer, Keeps-bind}
use pclipsync.Wait.{is_deferred}
use pclipsync.Sync.Quiet.{Quiet, get_server_timestamp-Keeps}
use pclipsync.Sync.{
  add, own, stamp, claim, stamp_if_owner, set_clipboard_content, handle_incoming_content,
}

-- An X server on which a window that has just asked for a selection owns it.
pub record Grants (O : Outside) (window : WindowId) : Type 0 where
  pub grants :
      (h : List Request) (a : Atom)
      → O.selection_owner (flush ∷ set_selection_owner window a ∷ h) a ≡ ok window

-- The content and the selections owned.
pub record Owns (c : Bytes) (l : List Atom) (s : ClipboardState) : Type 0 where
  pub content : s.current_content ≡ c
  pub owned : s.owned_selections ≡ l

pub Owns-Quiet : (c : Bytes) (l : List Atom) → Quiet (Owns c l)
Owns-Quiet c l = record {
  at_asked = λ r s e p. record { content = p.content; owned = p.owned };
  at_own_property = λ a b n m s p. record { content = p.content; owned = p.owned };
  unqueued = record {
    at_poll = λ now wall rest s p. record { content = p.content; owned = p.owned };
    at_lost = λ rest s p. record { content = p.content; owned = p.owned };
    at_defer = λ e s p. deferred (is_deferred e) e s p;
  };
  at_x11_event = λ b s p. record { content = p.content; owned = p.owned };
}
  where
    deferred :
        (b : Bool) (e : Event) (s : ClipboardState)
        → Owns c l s
        → Owns c l (if b then record s { deferred_events = s.deferred_events ++ e ∷ [] } else s)
    deferred true e s p = record { content = p.content; owned = p.owned }
    deferred false e s p = p

module _ (O : Outside) (c : Bytes) (l : List Atom) where
  pub stamp-Owns : Keeps (Owns c l) (stamp O)
  unfolding stamp
  stamp-Owns =
      Keeps-bind _ _ (get_server_timestamp-Keeps O (Owns-Quiet c l))
        λ time. record { at = λ s p. record { content = p.content; owned = p.owned } }

  stamp_of-Owns :
      (owned : List Atom) → Keeps (Owns c l) (elim owned [ [] ↦ pure tt | _ ∷ _ ↦ stamp O ])
  stamp_of-Owns [] = Keeps-pure tt
  stamp_of-Owns (a ∷ owned) = stamp-Owns

  stamp_if_owner-Owns : Keeps (Owns c l) (stamp_if_owner O)
  unfolding stamp_if_owner
  stamp_if_owner-Owns =
      Keeps-bind _ _ (Keeps-answer (λ s. ok s.owned_selections)) λ owned. stamp_of-Owns owned

pub eq_refl : (w : ℕ) → w == w ≡ true
eq_refl w = ground arith

-- The state once a selection has been asked for and given.
abbrev pub took : Atom → ClipboardState → ClipboardState
took a s =
    let t =
      asked (get_selection_owner a) (asked flush (asked (set_selection_owner s.window a) s)) in
    record t { owned_selections = add a s.owned_selections }

module _ (O : Outside) (A : Accepts O) where
  claim_lem : (a : Atom) (s : ClipboardState) → Grants O s.window → claim O a s ≡ (ok tt, took a s)
  unfolding claim set_clipboard_content own
  claim_lem a s g = simp (A.takes, g.grants, eq_refl)

  -- On an X server that takes every request and gives a selection to the window that asks for it,
  -- and where CLIPBOARD and PRIMARY differ: after a content came from the remote side, both
  -- selections are owned, with that content, whatever was owned before and whatever becomes of the
  -- server's time.
  pub handle_incoming_content-Owns :
      (c : Bytes) (s : ClipboardState)
      → Grants O s.window
      → s.clipboard_atom ≢ O.primary_atom
      → Owns c (O.primary_atom ∷ s.clipboard_atom ∷ []) (handle_incoming_content O c s).1
  unfolding handle_incoming_content add contains
  handle_incoming_content-Owns c s g ne =
      let s0 : ClipboardState = record s {
        hash_state = record_received (compute_hash O c) s.hash_state;
        current_content = c;
        owned_selections = [];
      } in
      rw (claim_lem s.clipboard_atom s0 g) (
        rw (claim_lem O.primary_atom (took s.clipboard_atom s0) g) (
          (stamp_if_owner-Owns O c (O.primary_atom ∷ s.clipboard_atom ∷ [])).at _
            (record { content = refl; owned = both s.clipboard_atom O.primary_atom ne })))
    where
      both : (a b : Atom) → a ≢ b → add b (add a []) ≡ b ∷ a ∷ []
      both a b h = ground (arith, h)
