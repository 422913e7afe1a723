-- ===== src/Sync/Silent.antt =====
-- What is written to the socket and the hashes, which passive actions leave alone.
use pclipsync.Base.{ℕ, ◌∙◌, ◌≡◌, refl, arith, true, List, [], ◌∷◌}
use pclipsync.HashState.{HashState}
use pclipsync.X11.{Bytes, Request, write, change_property}
use pclipsync.State.{ClipboardState}
use pclipsync.Sync.Quiet.{is_passive}
use pclipsync.Sync.Passive.{Passive}

-- What was written to the socket, the last write first.
unfoldable pub network : List Request → List Bytes
network [] = []
network (write bytes ∷ h) = bytes ∷ network h
network (_ ∷ h) = network h

pub record IsSilent (n : List Bytes) (k : HashState) (s : ClipboardState) : Type 0 where
  pub sent : network s.display.history ≡ n
  pub hashes : s.hash_state ≡ k

network-passive :
    (r : Request) (h : List Request) → is_passive r ≡ true → network (r ∷ h) ≡ network h
unfolding network
network-passive (write bytes) h e = cc
network-passive _ h e = refl

network-change_property :
    (w a b n : ℕ) (l : List ℕ) (h : List Request)
    → network (change_property w a b n l ∷ h) ≡ network h
unfolding network
network-change_property w a b n l h = refl

pub IsSilent-Passive : (n : List Bytes) (k : HashState) → Passive (IsSilent n k)
IsSilent-Passive n k = record {
  quiet = record {
    at_asked = λ r s e p. record {
      sent = rw (network-passive r s.display.history e) p.sent;
      hashes = p.hashes;
    };
    at_own_property = λ a b n l s p. record {
      sent = network-change_property s.window a b n l s.display.history ∙ p.sent;
      hashes = p.hashes;
    };
    unqueued = record {
      at_poll = λ now wall rest s p. record { sent = p.sent; hashes = p.hashes };
      at_lost = λ rest s p. record { sent = p.sent; hashes = p.hashes };
      at_defer = λ e s p. ground arith;
    };
    at_x11_event = λ b s p. record { sent = p.sent; hashes = p.hashes };
  };
  at_owned = λ l s p. record { sent = p.sent; hashes = p.hashes };
  at_time = λ t s p. record { sent = p.sent; hashes = p.hashes };
}
