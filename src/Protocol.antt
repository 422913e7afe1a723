-- ===== src/Protocol.antt =====
-- src/pclipsync/protocol.py: netstring framing of clipboard content on the socket.
-- A `Stream` is what a StreamReader will yet see: bytes, and then the end or a failure.
pub mod Decimal
unfoldable pub use Decimal.{decimal, value, is_digit}
pub mod RoundTrip
pub mod Framing
pub mod Reference
use pclipsync.Base.{
  ℕ, zero, suc, ◌+◌, ◌-◌, ◌≤◌, ◌<◌, ◌≡◌, refl, Bool, true, false, not, Option, none, some, List, [],
  ◌∷◌, ◌++◌, ltb, leb, ◌==◌, if◌then◌else◌, bytes_eq, length, take, drop,
}
use pclipsync.Exec.{
  ProtocolFailure, closed_in_length, invalid_character, too_many_digits, empty_length, too_large,
  closed_in_content, no_comma, Exn, protocol_error, connection_error, Result, ok, raise, Exec, pure,
  throw, ◌>>=◌, ◌>>◌,
}

abbrev pub Bytes : Type 0
Bytes = List ℕ

abbrev pub max_content_size : ℕ
max_content_size = 10485760

abbrev pub max_length_digits : ℕ
max_length_digits = 8

abbrev pub goodbye_message : Bytes
goodbye_message = b'0' ∷ b':' ∷ b',' ∷ []

-- `f"{length}:".encode("ascii") + data + b","`
unfoldable pub encode_netstring : Bytes → Bytes
encode_netstring content = decimal (length content) ++ (b':' ∷ (content ++ b',' ∷ []))

unfoldable pub validate_content_size : Bytes → Bool
validate_content_size content = leb (length content) max_content_size

-- `content == b""`
unfoldable pub is_goodbye : Bytes → Bool
unfolding bytes_eq
is_goodbye content = bytes_eq content []

-- How the bytes end: the peer closed the connection, or it broke (a `ConnectionError`).
pub data Ending : Type 0 where
  closed broken : Ending

pub record Stream : Type 0 where
  pub bytes : Bytes
  pub ending : Ending

abbrev at_end : {A : Type 0} → Ending → Result A → Result A
at_end closed r = r
at_end broken r = raise connection_error

-- The loop over the length field; what follows the length and its colon comes back beside it.
pub read_length : Ending → Bytes → Bytes → Result Bytes × Bytes
read_length ending length_bytes [] =
    if ltb (length length_bytes) (max_length_digits + 1)
    then (at_end ending (raise (protocol_error closed_in_length)), [])
    else (raise (protocol_error too_many_digits), [])
read_length ending length_bytes (byte ∷ rest) =
    let more = read_length ending (length_bytes ++ byte ∷ []) rest in
    if ltb (length length_bytes) (max_length_digits + 1)
    then if byte == b':'
      then (ok length_bytes, rest)
      else if is_digit byte
      then more
      else (raise (protocol_error (invalid_character byte)), rest)
    else (raise (protocol_error too_many_digits), byte ∷ rest)

pub length_field : Exec Stream Bytes
unfolding read_length
length_field s = let (r, rest) = read_length s.ending [] s.bytes in (r, record s { bytes = rest })

-- `reader.readexactly(n)`
read_exactly : ℕ → Exec Stream Bytes
read_exactly n s =
    if leb n (length s.bytes)
    then (ok (take n s.bytes), record s { bytes = drop n s.bytes })
    else (at_end s.ending (raise (protocol_error closed_in_content)), record s { bytes = [] })

-- `comma = await reader.read(1)`; none is the empty read at the end.
read_one : Exec Stream (Option ℕ)
read_one s = elim s.bytes [
  | [] ↦ (at_end s.ending (ok none), s)
  | c ∷ rest ↦ (ok (some c), record s { bytes = rest })
]

is_comma : Option ℕ → Bool
is_comma none = false
is_comma (some c) = c == b','

-- What follows the loop: the tests on the length, the content and the comma.
pub read_body : Bytes → Exec Stream Bytes
unfolding read_exactly read_one is_comma bytes_eq
read_body length_bytes =
    if bytes_eq length_bytes [] then throw (protocol_error empty_length) else do
      let size = value 0 length_bytes
      if ltb max_content_size size then throw (protocol_error (too_large size)) else do
        content ← read_exactly size
        comma ← read_one
        if is_comma comma then pure content else throw (protocol_error no_comma)

unfoldable pub read_netstring : Exec Stream Bytes
unfolding length_field read_body
read_netstring = do length_bytes ← length_field; read_body length_bytes

abbrev pub stream : Bytes → Stream
stream bytes = record { bytes = bytes; ending = closed }
