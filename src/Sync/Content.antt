-- ===== src/Sync/Content.antt =====
-- The content that is served, which passive actions leave alone: sync_handlers.py.
use pclipsync.Base.{◌≡◌, refl, Bool, true, false, [], ◌∷◌, ◌++◌, if◌then◌else◌}
use pclipsync.Exec.{ok}
use pclipsync.X11.{Bytes, Event, Outside}
use pclipsync.State.{ClipboardState}
use pclipsync.State.Keeps.{Keeps-answer, Keeps-bind}
use pclipsync.Wait.{is_deferred}
use pclipsync.Sync.{handle_incoming_content}
use pclipsync.Sync.Passive.{Passive, claim-Keeps, stamp_if_owner-Keeps}

abbrev pub HasContent : Bytes → ClipboardState → Type 0
HasContent c s = s.current_content ≡ c

still :
    (c : Bytes) (b : Bool) (e : Event) (s : ClipboardState)
    → HasContent c s
    → HasContent c (if b then record s { deferred_events = s.deferred_events ++ e ∷ [] } else s)
still c true e s p = p
still c false e s p = p

pub HasContent-Passive : (c : Bytes) → Passive (HasContent c)
HasContent-Passive c = record {
  quiet = record {
    at_asked = λ r s e p. p;
    at_own_property = λ a b n l s p. p;
    unqueued = record {
      at_poll = λ now wall rest s p. p;
      at_lost = λ rest s p. p;
      at_defer = λ e s. still c (is_deferred e) e s;
    };
    at_x11_event = λ b s p. p;
  };
  at_owned = λ l s p. p;
  at_time = λ t s p. p;
}

-- Whatever fails, the content that arrived is the one to serve.
pub handle_incoming_content-HasContent :
    (O : Outside) (c : Bytes) (s : ClipboardState) → HasContent c (handle_incoming_content O c s).1
unfolding handle_incoming_content
handle_incoming_content-HasContent O c s =
    let Q = HasContent-Passive c in
    (Keeps-bind _ _ (Keeps-answer (λ s. ok s.clipboard_atom)) λ clipboard_atom.
        Keeps-bind _ _ (claim-Keeps O Q clipboard_atom)
          λ _. Keeps-bind _ _ (claim-Keeps O Q O.primary_atom) λ _. stamp_if_owner-Keeps O Q).at
      _ refl
