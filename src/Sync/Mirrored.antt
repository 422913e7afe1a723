-- ===== src/Sync/Mirrored.antt =====
-- What `handle_clipboard_change` of sync_handlers.py leaves on an X server that gives the selections:
-- the other selection gets the content too.
use pclipsync.Base.{
  ◌⊎◌, inl, inr, ◌≤◌, ◌≡◌, ◌≢◌, refl, sym, ◌∙◌, subst, Bool, true, false, Option, some, List, [],
  ◌∷◌, ◌++◌, arith, ◌==◌, leb, length, if◌then◌else◌,
}
use pclipsync.Exec.{Result, ok}
use pclipsync.Protocol.{max_content_size, encode_netstring, validate_content_size}
use pclipsync.X11.{
  Bytes, Atom, WindowId, Event, Request, get_selection_owner, write, drain, Outside,
}
use pclipsync.State.{ClipboardState, perform, asked, Accepts}
use pclipsync.State.Keeps.{Keeps, Keeps-pure, Keeps-answer, Keeps-if, Keeps-continue, Keeps-bind}
use pclipsync.Wait.{get_other_selection, is_deferred}
use pclipsync.ClipboardIo.{signal_deferred}
use pclipsync.Sync.{
  add, stamp, own, mirror, set_clipboard_content, send_if_new, accept_content, content_changed,
  handle_clipboard_change,
}
use pclipsync.Sync.Quiet.{Quiet, read_clipboard_content-Keeps}
use pclipsync.Sync.Readable.{Readable, read_clipboard_content_lem}
use pclipsync.Sync.Ownership.{Grants, Owns, stamp-Owns, eq_refl, took}

-- The window, its selections and the atom of CLIPBOARD.
pub record HasSelections (w : WindowId) (k : Atom) (l : List Atom) (s : ClipboardState)
    : Type 0 where
  pub window : s.window ≡ w
  pub clipboard : s.clipboard_atom ≡ k
  pub owned : s.owned_selections ≡ l

-- CLIPBOARD and PRIMARY, in either order.
abbrev pub IsPair : Outside → Atom → Atom → Atom → Type 0
IsPair O clipboard_atom a b =
    ((a ≡ clipboard_atom) × (b ≡ O.primary_atom)) ⊎ ((a ≡ O.primary_atom) × (b ≡ clipboard_atom))

get_other_selection_lem :
    (O : Outside) (k a b : Atom)
    → k ≢ O.primary_atom
    → IsPair O k a b
    → get_other_selection O a k ≡ b
unfolding get_other_selection
get_other_selection_lem O k a b ne (inl (e, f)) = ground (arith, ne, e, f)
get_other_selection_lem O k a b ne (inr (e, f)) = ground (arith, ne, e, f)

module _ (w : WindowId) (k : Atom) (l : List Atom) where
  pub same :
      (s t : ClipboardState)
      → s.window ≡ t.window
      → s.clipboard_atom ≡ t.clipboard_atom
      → s.owned_selections ≡ t.owned_selections
      → HasSelections w k l s
      → HasSelections w k l t
  same s t e f g p = record {
    window = sym e ∙ p.window;
    clipboard = sym f ∙ p.clipboard;
    owned = sym g ∙ p.owned;
  }

  HasSelections-Quiet : Quiet (HasSelections w k l)
  HasSelections-Quiet = record {
    at_asked = λ r s e. same s _ refl refl refl;
    at_own_property = λ a b n m s. same s _ refl refl refl;
    unqueued = record {
      at_poll = λ now wall rest s. same s _ refl refl refl;
      at_lost = λ rest s. same s _ refl refl refl;
      at_defer = λ e s. deferred (is_deferred e) e s;
    };
    at_x11_event = λ b s. same s _ refl refl refl;
  }
    where
      deferred :
          (b : Bool) (e : Event) (s : ClipboardState)
          → HasSelections w k l s
          → HasSelections w k l
              (if b then record s { deferred_events = s.deferred_events ++ e ∷ [] } else s)
      deferred true e s p = same s _ refl refl refl p
      deferred false e s p = p

module _ (O : Outside) (A : Accepts O) where
  mirror_lem :
      (b : Atom) (s : ClipboardState) → Grants O s.window → mirror O b s ≡ stamp O (took b s)
  unfolding mirror set_clipboard_content own
  mirror_lem b s g = simp (A.takes, g.grants, eq_refl)

  send-Owns : (c d : Bytes) (l : List Atom) → Keeps (Owns c l) (send_if_new O d)
  unfolding send_if_new
  send-Owns c d l = Keeps-bind _ _ (Keeps-answer (λ s. ok s.hash_state)) λ k.
      Keeps-if _ _ _ (Keeps-pure tt) (
        Keeps-bind _ _ (asks (write (encode_netstring d))) λ _.
          Keeps-bind _ _ (asks drain)
            λ _. record { at = λ s p. record { content = p.content; owned = p.owned } })
    where
      asks : (r : Request) → Keeps (Owns c l) (perform O r)
      asks r = record { at = λ s p. record { content = p.content; owned = p.owned } }

  -- The content is accepted where the window, its selections and CLIPBOARD are these.
  accept-Owns :
      (a : Atom) (c : Bytes) (w : WindowId) (k : Atom) (l : List Atom) (v : ClipboardState)
      → HasSelections w k l v
      → Grants O w
      → Owns c (add (get_other_selection O a k) l) (accept_content O a c v).1
  unfolding accept_content
  accept-Owns a c w k l v p g =
      let b = get_other_selection O a v.clipboard_atom in
      let v' : ClipboardState = record v { current_content = c } in
      let taken = mirror_lem b v' (rw p.window g) in
      let l' = add (get_other_selection O a k) l in
      rw taken (
        Keeps-continue {P = Owns c l'} (stamp O (took b v')).0 (λ _. send_if_new O c)
          (stamp O (took b v')).1 (λ _. send-Owns c c l')
          ((stamp-Owns O c l').at (took b v')
            (record { content = refl; owned = rw (p.clipboard, p.owned) refl })))

  changed-Owns :
      (a : Atom) (c : Bytes)
      → c ≢ []
      → length c ≤ max_content_size
      → (w : WindowId) (k : Atom) (l : List Atom) (v : ClipboardState) → HasSelections w k l v
      → Grants O w
      → Owns c (add (get_other_selection O a k) l) (content_changed O a (some c) v).1
  unfolding content_changed validate_content_size
  changed-Owns a [] ne fits w k l v p g = absurd (ne refl)
  changed-Owns a (b ∷ bs) ne fits w k l v p g =
      let valid : leb (length (b ∷ bs)) max_content_size ≡ true = ground arith in
      rw valid (accept-Owns a (b ∷ bs) w k l v p g)

  -- On an X server that takes every request and gives a selection to the window that asks for it,
  -- and where CLIPBOARD and PRIMARY differ: a local change of one of the two, which another window
  -- owns and whose content can be read, whole or by chunks, is not empty and within the limit,
  -- makes that content the one to serve and takes the other of the two, beside what is owned,
  -- whether or not the content is sent, and whatever becomes of the server's time.
  pub handle_clipboard_change-Owns :
      (a b : Atom) (owner : WindowId) (c : Bytes) (s : ClipboardState)
      → s.clipboard_atom ≢ O.primary_atom
      → IsPair O s.clipboard_atom a b
      → O.selection_owner s.display.history a ≡ ok owner
      → owner == s.window ≡ false
      → Readable O a c (asked (get_selection_owner a) s)
      → c ≢ []
      → length c ≤ max_content_size
      → Grants O s.window
      → Owns c (add b s.owned_selections) (handle_clipboard_change O a s).1
  unfolding handle_clipboard_change
  handle_clipboard_change-Owns a b owner c s ne pair has other q some_content fits g =
      let s1 : ClipboardState = asked (get_selection_owner a) s in
      let e = read_clipboard_content_lem O A a c s1 q fits in
      let w = s.window in
      let k = s.clipboard_atom in
      let l = s.owned_selections in
      let kept =
        (read_clipboard_content-Keeps O (HasSelections-Quiet w k l) a).at s1
          (record { window = refl; clipboard = refl; owned = refl }) in
      let still =
        subst (λ (r : Result (Option Bytes) × ClipboardState). HasSelections w k l r.1) e kept in
      rw (has, other, e)
        (subst (λ d. Owns c (add d l) (content_changed O a (some c) (signal_deferred q.read)).1)
          (get_other_selection_lem O k a b ne pair)
          (changed-Owns a c some_content fits w k l (signal_deferred q.read) still g))
