-- ===== src/Tests/Wire.antt =====
-- Netstrings, hashes and texts at concrete values: protocol.py, hash_state.py and clipboard_io.py.
use pclipsync.Base.{
  ◌↔◌, ℕ, zero, suc, ◌+◌, ◌^◌, ◌≡◌, refl, ap, [], ◌∷◌, ◌++◌, arith, ltb, if◌then◌else◌, length,
}
use pclipsync.Exec.{other_error, protocol_error, too_large, too_many_digits, ok, raise}
use pclipsync.Protocol.Reference.{parse_netstring, read_netstring-parse_netstring}
use pclipsync.Protocol.{
  Bytes, max_content_size, goodbye_message, encode_netstring, Ending, closed, Stream, stream,
  read_netstring, value, is_digit,
}
use pclipsync.Protocol.RoundTrip.{read_netstring-encode_netstring}
use pclipsync.Protocol.Framing.{IsNetstring, read_netstring_iff, read_netstring-oversized}
use pclipsync.ClipboardIo.{encode_utf8}
use pclipsync.Tests.Samples.{hello}

goodbye_reads_empty : read_netstring (stream goodbye_message) ≡ (ok [], stream [])
unfolding read_netstring is_digit value
goodbye_reads_empty = refl

hello_is_encoded : encode_netstring hello ≡ b'2' ∷ b':' ∷ b'h' ∷ b'i' ∷ b',' ∷ []
unfolding encode_netstring pclipsync.Protocol.decimal
hello_is_encoded = refl

read_netstring-encode_netstring_example :
    read_netstring (record { bytes = encode_netstring hello ++ b'x' ∷ []; ending = closed })
    ≡ (ok hello, record { bytes = b'x' ∷ []; ending = closed })
read_netstring-encode_netstring_example =
    read_netstring-encode_netstring hello (b'x' ∷ []) closed (omega arith)

abbrev framed : Bytes
framed = b'2' ∷ b':' ∷ b'h' ∷ b'i' ∷ b',' ∷ b'x' ∷ []

read_netstring_iff_example :
    (read_netstring (stream framed) ≡ (ok hello, stream (b'x' ∷ [])))
    ↔ IsNetstring framed hello (b'x' ∷ [])
read_netstring_iff_example = read_netstring_iff framed hello (b'x' ∷ []) closed

framed_is_read : read_netstring (stream framed) ≡ (ok hello, stream (b'x' ∷ []))
unfolding read_netstring is_digit value
framed_is_read = refl

-- A content of so many zeros.
zeros : ℕ → Bytes
zeros zero = []
zeros (suc n) = 0 ∷ zeros n

length-zeros : (n : ℕ) → length (zeros n) ≡ n
unfolding zeros
length-zeros zero = refl
length-zeros (suc n) = ap suc (length-zeros n)

read_netstring-oversized_example :
    (read_netstring
      (record { bytes = encode_netstring (zeros (max_content_size + 1)) ++ []; ending = closed })).0
    ≡ raise (
        protocol_error (
          if ltb (length (zeros (max_content_size + 1))) (10 ^ 8)
          then too_large (length (zeros (max_content_size + 1)))
          else too_many_digits))
read_netstring-oversized_example =
    read_netstring-oversized (zeros (max_content_size + 1)) [] closed
      (omega (arith, length-zeros (max_content_size + 1)))

-- "é€" and a lone surrogate
encode_accents : encode_utf8 (0xe9 ∷ 0x20ac ∷ []) ≡ ok (0xc3 ∷ 0xa9 ∷ 0xe2 ∷ 0x82 ∷ 0xac ∷ [])
unfolding encode_utf8
encode_accents = refl

encode_surrogate : encode_utf8 (0x61 ∷ 0xd800 ∷ []) ≡ raise other_error
unfolding encode_utf8
encode_surrogate = refl

read_netstring-parse_netstring_example :
    read_netstring (stream (b'2' ∷ b':' ∷ b'h' ∷ b'i' ∷ b',' ∷ b'0' ∷ [])) ≡ (
      let (r, rest) = parse_netstring closed (b'2' ∷ b':' ∷ b'h' ∷ b'i' ∷ b',' ∷ b'0' ∷ []) in
      (r, stream rest))
read_netstring-parse_netstring_example =
    read_netstring-parse_netstring (stream (b'2' ∷ b':' ∷ b'h' ∷ b'i' ∷ b',' ∷ b'0' ∷ []))

parses :
    parse_netstring closed (b'2' ∷ b':' ∷ b'h' ∷ b'i' ∷ b',' ∷ b'0' ∷ [])
    ≡ (ok (b'h' ∷ b'i' ∷ []), b'0' ∷ [])
unfolding parse_netstring is_digit value
parses = refl
