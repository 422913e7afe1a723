-- ===== src/HashState/Laws.antt =====
-- When `should_send` of hash_state.py lets content pass.
use pclipsync.Base.{
  ◌≡◌, ◌≢◌, ◌↔◌, true, false, Option, none, some, arith, bytes_eq_refl, bytes_eq→eq,
}
use pclipsync.HashState.{Digest, HashState, is_hash, should_send}

is_hash→eq : (h : Digest) (o : Option Digest) → is_hash h o ≡ true → o ≡ some h
unfolding is_hash
is_hash→eq h none e = cc
is_hash→eq h (some k) e = ground (arith, bytes_eq→eq h k)

-- A hash is sent exactly if it is neither the last one sent nor the last one received.
pub should_send_iff :
    (s : HashState) (h : Digest)
    → (should_send s h ≡ true) ↔ ((s.last_sent_hash ≢ some h) × (s.last_received_hash ≢ some h))
unfolding should_send is_hash
should_send_iff s h =
    ground
      (arith, is_hash→eq h s.last_sent_hash, is_hash→eq h s.last_received_hash, bytes_eq_refl h)

pub should_send_of_received :
    (s : HashState) (h : Digest) → s.last_received_hash ≡ some h → should_send s h ≡ false
unfolding should_send
should_send_of_received s h e = ground (arith, bytes_eq_refl h)

pub should_send_of_sent :
    (s : HashState) (h : Digest) → s.last_sent_hash ≡ some h → should_send s h ≡ false
unfolding should_send
should_send_of_sent s h e = ground (arith, bytes_eq_refl h)
