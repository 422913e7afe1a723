-- ===== src/HashState.antt =====
-- src/pclipsync/hash_state.py and hashing.py: the hashes that stop duplicates and echoes.
pub mod Laws
use pclipsync.X11.{Bytes, Outside}
use pclipsync.Base.{ℕ, Bool, true, false, Option, none, some, List, bytes_eq, if◌then◌else◌}

-- A hexadecimal digest, as a text.
abbrev pub Digest : Type 0
Digest = List ℕ

-- `hashlib.sha256(data).hexdigest()`, from hashlib.
abbrev pub compute_hash : Outside → Bytes → Digest
compute_hash O content = O.sha256 content

pub record HashState : Type 0 where
  pub last_sent_hash : Option Digest
  pub last_received_hash : Option Digest

abbrev pub fresh : HashState
fresh = record { last_sent_hash = none; last_received_hash = none }

-- `current_hash == self.last_sent_hash`, where the field may be `None`.
unfoldable pub is_hash : Digest → Option Digest → Bool
is_hash h none = false
is_hash h (some k) = bytes_eq h k

unfoldable pub should_send : HashState → Digest → Bool
unfolding is_hash
should_send s current_hash =
    if is_hash current_hash s.last_sent_hash
    then false
    else if is_hash current_hash s.last_received_hash
    then false
    else true

unfoldable pub record_sent : Digest → HashState → HashState
record_sent h s = record s { last_sent_hash = some h }

unfoldable pub record_received : Digest → HashState → HashState
record_received h s = record s { last_received_hash = some h }

unfoldable pub clear_received_hash : HashState → HashState
clear_received_hash s = record s { last_received_hash = none }

unfoldable pub clear_sent_hash : HashState → HashState
clear_sent_hash s = record s { last_sent_hash = none }

unfoldable pub clear : HashState → HashState
clear s = record s { last_sent_hash = none; last_received_hash = none }
