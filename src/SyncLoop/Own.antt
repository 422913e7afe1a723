-- ===== src/SyncLoop/Own.antt =====
-- The events that tell that this window has taken a selection, in `process_x11_events` of
-- sync_loop_inner.py: only the events of other windows make it forget hashes.
use pclipsync.Base.{
  ◌≤◌, ◌≡◌, ◌≢◌, refl, sym, ap, subst, ◌∙◌, inl, inr, true, some, List, [], ◌∷◌, All, length, Bool,
  false, ◌++◌, if◌then◌else◌,
}
use pclipsync.HashState.{Digest, HashState, should_send, record_sent, record_received}
use pclipsync.HashState.Laws.{should_send_of_received}
use pclipsync.Protocol.{max_content_size, encode_netstring}
use pclipsync.X11.{Bytes, Atom, WindowId, Event, set_selection_owner_notify, Outside}
use pclipsync.State.{ClipboardState}
use pclipsync.State.Keeps.{Keeps, Keeps-pure, Keeps-bind}
use pclipsync.Wait.{is_deferred}
use pclipsync.Sync.{handle_clipboard_change, handle_incoming_content}
use pclipsync.Sync.Silent.{network}
use pclipsync.Sync.Passive.{Passive}
use pclipsync.Sync.Handles.{Changes, change-Keeps}
use pclipsync.Sync.Ownership.{eq_refl}
use pclipsync.Sync.Echo.{SentAtMostOne, handle_clipboard_change-sends, not_sent}
use pclipsync.Sync.Incoming.{handle_incoming_content-records}
use pclipsync.SyncLoop.{handle_event, handle_events}
use pclipsync.SyncLoop.Rounds.{IsMessage}

-- One event for each selection, which tells that this window has taken it.
abbrev pub own_events : WindowId → List Atom → List Event
own_events w [] = []
own_events w (a ∷ more) = set_selection_owner_notify a w ∷ own_events w more

pub handle_event-own :
    (O : Outside) (a : Atom) (s : ClipboardState)
    → handle_event O (set_selection_owner_notify a s.window) s ≡ handle_clipboard_change O a s
unfolding handle_event
handle_event-own O a s = rw (eq_refl s.window)

-- The next event of this window's own selections does not write this content to the socket.
abbrev pub IsQuiet : Outside → Bytes → ClipboardState → Type 0
IsQuiet O c t =
    (a : Atom)
    → network (handle_event O (set_selection_owner_notify a t.window) t).1.display.history
      ≢ encode_netstring c ∷ network t.display.history

module _ (O : Outside) (c : Bytes) (fits : length c ≤ max_content_size) (s : ClipboardState) where
  pub IsQuiet-refused : should_send s.hash_state (O.sha256 c) ≡ false → IsQuiet O c s
  IsQuiet-refused old a = rw (handle_event-own O a s) (not_sent O a c s fits old)

-- These contents are written behind what was written before, the last one first.
abbrev pub encoded : List Bytes → List Bytes → List Bytes
encoded [] n = n
encoded (c ∷ cs) n = encode_netstring c ∷ encoded cs n

-- Messages were written, none of which is this content.
abbrev pub Unechoed : Bytes → List Bytes → ClipboardState → Type 0
Unechoed c n u =
    (cs : List Bytes) × (network u.display.history ≡ encoded cs n)
    × All (λ d. IsMessage d × (d ≢ c)) cs

-- The window, and the hash received last.
record Remembers (w : WindowId) (h : Digest) (s : ClipboardState) : Type 0 where
  window : s.window ≡ w
  received : s.hash_state.last_received_hash ≡ some h

module _ (w : WindowId) (h : Digest) where
  same :
      (s t : ClipboardState)
      → s.window ≡ t.window
      → s.hash_state.last_received_hash ≡ t.hash_state.last_received_hash
      → Remembers w h s
      → Remembers w h t
  same s t e f p = record { window = sym e ∙ p.window; received = sym f ∙ p.received }

  Remembers-Passive : Passive (Remembers w h)
  Remembers-Passive = record {
    quiet = record {
      at_asked = λ r s e. same s _ refl refl;
      at_own_property = λ a b n m s. same s _ refl refl;
      unqueued = record {
        at_poll = λ now wall rest s. same s _ refl refl;
        at_lost = λ rest s. same s _ refl refl;
        at_defer = λ e s. deferred (is_deferred e) e s;
      };
      at_x11_event = λ b s. same s _ refl refl;
    };
    at_owned = λ l s. same s _ refl refl;
    at_time = λ t s. same s _ refl refl;
  }
    where
      deferred :
          (b : Bool) (e : Event) (s : ClipboardState)
          → Remembers w h s
          → Remembers w h
              (if b then record s { deferred_events = s.deferred_events ++ e ∷ [] } else s)
      deferred true e s p = same s _ refl refl p
      deferred false e s p = p

  Remembers-Changes : Changes (Remembers w h)
  unfolding record_sent
  Remembers-Changes = record {
    passive = Remembers-Passive;
    at_write = λ bytes s. same s _ refl refl;
    at_sent = λ g s. same s _ refl refl;
    at_content = λ c s. same s _ refl refl;
  }

module _ (O : Outside) (c : Bytes) (w : WindowId) (n : List Bytes) where
  record Holds (s : ClipboardState) : Type 0 where
    remembers : Remembers w (O.sha256 c) s
    unechoed : Unechoed c n s

  differs :
      (k : HashState) (d : Bytes)
      → k.last_received_hash ≡ some (O.sha256 c)
      → should_send k (O.sha256 d) ≡ true
      → d ≢ c
  differs k d e new same_content =
      let old = should_send_of_received k (O.sha256 c) e in
      let new' = subst (λ b. should_send k (O.sha256 b) ≡ true) same_content new in absurd (cc)

  change-Unechoed :
      (s u : ClipboardState)
      → Holds s
      → SentAtMostOne O (network s.display.history) s.hash_state u
      → Unechoed c n u
  change-Unechoed s u p (inl none_sent) = let (cs, e, all) = p.unechoed in (cs, none_sent ∙ e, all)
  change-Unechoed s u p (inr (d, wrote, ne, fits, new)) =
      let (cs, e, all) = p.unechoed in
      (
        d ∷ cs,
        wrote ∙ ap (λ l. encode_netstring d ∷ l) e,
        (((ne, fits), differs s.hash_state d p.remembers.received new), all),
      )

  event-Keeps : (a : Atom) → Keeps Holds (handle_event O (set_selection_owner_notify a w))
  event-Keeps a = record {
    at = λ s p.
        subst (λ v. Holds (handle_event O (set_selection_owner_notify a v) s).1) p.remembers.window
          (rw (handle_event-own O a s) (record {
            remembers = (change-Keeps O (Remembers-Changes w (O.sha256 c)) a).at s p.remembers;
            unechoed =
                change-Unechoed s (handle_clipboard_change O a s).1 p
                  (handle_clipboard_change-sends O a s);
          }));
  }

  events-Keeps : (more : List Atom) → Keeps Holds (handle_events O (own_events w more))
  unfolding handle_events
  events-Keeps [] = Keeps-pure tt
  events-Keeps (a ∷ more) = Keeps-bind _ _ (event-Keeps a) λ _. events-Keeps more

-- Events of this window's own selections, any number of them, write messages at most, none of which
-- is this content.
abbrev pub NeverEchoes : Outside → Bytes → ClipboardState → Type 0
NeverEchoes O c t =
    (selections : List Atom)
    → Unechoed c (network t.display.history) (handle_events O (own_events t.window selections) t).1

pub NeverEchoes-received :
    (O : Outside) (c : Bytes) (t : ClipboardState)
    → t.hash_state.last_received_hash ≡ some (O.sha256 c)
    → NeverEchoes O c t
NeverEchoes-received O c t e selections =
    ((events-Keeps O c t.window (network t.display.history) selections).at t (record {
      remembers = record { window = refl; received = e };
      unechoed = ([], refl, tt);
    })).unechoed

-- Whatever the X server and the socket do and whatever is raised: after a content came from the
-- remote side, events that tell that this window has taken selections, any number of them and
-- whichever application owns the selections when they are handled, write nothing to the socket but
-- messages that are not empty and within the limit, none of which is that content.
pub no_echo :
    (O : Outside) (c : Bytes) (s : ClipboardState) (selections : List Atom)
    → let t = (handle_incoming_content O c s).1 in
      Unechoed c (network t.display.history) (handle_events O (own_events t.window selections) t).1
unfolding record_received
no_echo O c s selections =
    NeverEchoes-received O c (handle_incoming_content O c s).1
      (ap (λ (k : HashState). k.last_received_hash) (handle_incoming_content-records O c s).hashes)
      selections
