-- ===== src/Sync/Echo.antt =====
-- What `handle_clipboard_change` of sync_handlers.py may send: one message at most, never a
-- goodbye, never over the limit, and neither an echo nor a duplicate.
use pclipsync.Base.{
  ◌≤◌, ◌≡◌, ◌≢◌, refl, sym, ap, ◌∙◌, ◌⊎◌, inl, inr, Bool, true, false, Option, none, some, List, [],
  ◌∷◌, arith, if◌then◌else◌, length, Bool-cases, ◌==◌,
}
use pclipsync.Exec.{Result, ok, raise, modify, continue, ◌>>=◌}
use pclipsync.HashState.{HashState, should_send}
use pclipsync.Protocol.{max_content_size, encode_netstring, validate_content_size}
use pclipsync.Protocol.RoundTrip.{encode_netstring-injective}
use pclipsync.X11.{Bytes, Atom, Outside}
use pclipsync.State.{ClipboardState, Io}
use pclipsync.State.Keeps.{Keeps, Keeps-answer}
use pclipsync.Wait.{get_other_selection}
use pclipsync.Sync.{send_if_new, accept_content, content_changed, handle_clipboard_change}
use pclipsync.Sync.Quiet.{selection_owner-Keeps, read_clipboard_content-Keeps}
use pclipsync.Sync.Passive.{mirror-Keeps}
use pclipsync.Sync.Silent.{network, IsSilent, IsSilent-Passive}

-- Nothing was sent, or one netstring of a content that is not empty, is within the limit, and
-- whose hash was neither sent nor received last.
abbrev pub SentAtMostOne : Outside → List Bytes → HashState → ClipboardState → Type 0
SentAtMostOne O n k t =
    (network t.display.history ≡ n)
    ⊎ ((c : Bytes) × (network t.display.history ≡ encode_netstring c ∷ n)
        × (c ≢ [])
        × (length c ≤ max_content_size)
        × (should_send k (O.sha256 c) ≡ true))

module _ (O : Outside) (n : List Bytes) (k : HashState) where
  -- An action that starts in silence and sends at most one message.
  record Sends {A : Type 0} (m : Io A) : Type 0 where
    at : (s : ClipboardState) → IsSilent n k s → SentAtMostOne O n k (m s).1

  Sends-bind :
      {A B : Type 0} (m : Io A) (f : A → Io B)
      → Keeps (IsSilent n k) m
      → ((a : A) → Sends (f a))
      → Sends (m >>= f)
  Sends-bind {A} {B} m f km kf = record { at = λ s p. go (m s).0 (m s).1 (km.at s p) }
    where
      go :
          (r : Result A) (t : ClipboardState)
          → IsSilent n k t
          → SentAtMostOne O n k (continue r f t).1
      go (ok a) t p = (kf a).at t p
      go (raise x) t p = inl p.sent

  Sends-pure : {A : Type 0} (a : A) → Sends (λ s. (ok a, s))
  Sends-pure a = record { at = λ s p. inl p.sent }

  Sends-if : {A : Type 0} (b : Bool) (l m : Io A) → Sends l → Sends m → Sends (if b then l else m)
  Sends-if true l m kl km = kl
  Sends-if false l m kl km = km

  network-send_if_new :
      (c : Bytes) (s : ClipboardState)
      → network (send_if_new O c s).1.display.history ≡ (
          if should_send s.hash_state (O.sha256 c)
          then encode_netstring c ∷ network s.display.history
          else network s.display.history)
  unfolding send_if_new network
  network-send_if_new c s = ground arith

  send_if_new-Sends : (c : Bytes) → c ≢ [] → length c ≤ max_content_size → Sends (send_if_new O c)
  send_if_new-Sends c ne fits = record {
    at = λ s p. go s p (Bool-cases (should_send k (O.sha256 c)));
  }
    where
      go :
          (s : ClipboardState)
          → IsSilent n k s
          → (should_send k (O.sha256 c) ≡ true) ⊎ (should_send k (O.sha256 c) ≡ false)
          → SentAtMostOne O n k (send_if_new O c s).1
      go s p (inl new) =
          inr (c, ground (arith, network-send_if_new c s, p.sent, p.hashes), ne, fits, new)
      go s p (inr old) = inl (ground (arith, network-send_if_new c s, p.sent, p.hashes))

  set_current-Keeps :
      (c : Bytes) → Keeps (IsSilent n k) (modify (λ s. record s { current_content = c }))
  set_current-Keeps c = record { at = λ s p. record { sent = p.sent; hashes = p.hashes } }

  accept_content-Sends :
      (a : Atom) (c : Bytes) → c ≢ [] → length c ≤ max_content_size → Sends (accept_content O a c)
  unfolding accept_content
  accept_content-Sends a c ne fits = Sends-bind _ _ (set_current-Keeps c) λ _.
      Sends-bind _ _ (Keeps-answer (λ s. ok s.clipboard_atom)) λ clipboard_atom.
        Sends-bind _ _
          (mirror-Keeps O (IsSilent-Passive n k) (get_other_selection O a clipboard_atom))
          λ _. send_if_new-Sends c ne fits

  validated : (c : Bytes) → validate_content_size c ≡ true → length c ≤ max_content_size
  unfolding validate_content_size
  validated c h = ground arith

  content_changed-Sends : (a : Atom) (o : Option Bytes) → Sends (content_changed O a o)
  unfolding content_changed
  content_changed-Sends a none = Sends-pure tt
  content_changed-Sends a (some []) = Sends-pure tt
  content_changed-Sends a (some (b ∷ bs)) = elim (Bool-cases (validate_content_size (b ∷ bs))) [
    | inl fits ↦ rw fits (accept_content-Sends a (b ∷ bs) (cc) (validated (b ∷ bs) fits))
    | inr large ↦ rw large (Sends-pure tt)
  ]

  handle_clipboard_change-Sends : (a : Atom) → Sends (handle_clipboard_change O a)
  unfolding handle_clipboard_change
  handle_clipboard_change-Sends a =
      Sends-bind _ _ (selection_owner-Keeps O (IsSilent-Passive n k).quiet a) λ owner.
        Sends-bind _ _ (Keeps-answer (λ s. ok s.window)) λ window.
          Sends-if (owner == window) _ _ (Sends-pure tt) (
            Sends-bind _ _ (read_clipboard_content-Keeps O (IsSilent-Passive n k).quiet a)
              λ o. content_changed-Sends a o)

-- Whatever the X server, the owner of the clipboard and the socket do, a local change writes
-- nothing to the socket or one netstring, whose content is not empty, is within the limit and has
-- a hash that should_send accepts.
pub handle_clipboard_change-sends :
    (O : Outside) (a : Atom) (s : ClipboardState)
    → SentAtMostOne O (network s.display.history) s.hash_state (handle_clipboard_change O a s).1
handle_clipboard_change-sends O a s =
    (handle_clipboard_change-Sends O (network s.display.history) s.hash_state a).at s
      (record { sent = refl; hashes = refl })

cons-head : (a b : Bytes) (n m : List Bytes) → a ∷ n ≡ b ∷ m → a ≡ b
cons-head a b n m h = cc

-- A content whose hash `should_send` refuses is not sent.
pub not_sent :
    (O : Outside) (a : Atom) (c : Bytes) (s : ClipboardState)
    → length c ≤ max_content_size
    → should_send s.hash_state (O.sha256 c) ≡ false
    → network (handle_clipboard_change O a s).1.display.history
      ≢ encode_netstring c ∷ network s.display.history
not_sent O a c s fits old sent = go (handle_clipboard_change-sends O a s)
  where
    go :
        SentAtMostOne O (network s.display.history) s.hash_state (handle_clipboard_change O a s).1
        → ⊥
    go (inl same) = omega (arith, ap length (sym sent ∙ same))
    go (inr (d, wrote, ne, fits', new)) =
        let e : c ≡ d =
          encode_netstring-injective c d fits fits' (cons-head _ _ _ _ (sym sent ∙ wrote)) in
        cc
