-- ===== src/Protocol/RoundTrip.antt =====
-- Reading back what `encode_netstring` of protocol.py writes.
use pclipsync.Base.{
  ◌+◌, ◌^◌, ◌≤◌, ◌<◌, ◌≡◌, refl, [], ◌∷◌, ◌++◌, append_assoc, append-nil, arith, length,
  length-append, take-append, drop-append,
}
use pclipsync.Exec.{closed_in_length, too_many_digits, protocol_error, ok, raise, continue}
use pclipsync.Protocol.{
  Bytes, max_content_size, encode_netstring, Ending, closed, Stream, read_length, length_field,
  read_body, read_netstring,
}
use pclipsync.Protocol.Decimal.{
  decimal, value, is_digit, AllDigits, value-decimal, decimal-AllDigits, length-decimal-le,
  length-decimal-pos,
}

pub read_length-digits :
    (ending : Ending) (acc ds rest : Bytes)
    → AllDigits ds
    → length acc + length ds ≤ 8
    → read_length ending acc (ds ++ (b':' ∷ rest)) ≡ (ok (acc ++ ds), rest)
unfolding read_length is_digit
read_length-digits ending acc [] rest h b = rw append-nil (ground arith)
read_length-digits ending acc (d ∷ ds) rest h b = ground (
  arith,
  read_length-digits ending (acc ++ d ∷ []) ds rest,
  append_assoc acc (d ∷ []) ds,
  length-append acc (d ∷ []),
)

read_length-full :
    (ending : Ending) (acc rest : Bytes)
    → 9 ≤ length acc
    → (read_length ending acc rest).0 ≡ raise (protocol_error too_many_digits)
unfolding read_length
read_length-full ending acc [] h = ground arith
read_length-full ending acc (c ∷ rest) h = ground arith

-- A length field of more than eight digits is refused, whatever follows.
pub read_length-too_long :
    (ending : Ending) (acc ds rest : Bytes)
    → AllDigits ds
    → 9 ≤ length acc + length ds
    → (read_length ending acc (ds ++ rest)).0 ≡ raise (protocol_error too_many_digits)
unfolding read_length is_digit
read_length-too_long ending acc [] rest h b = read_length-full ending acc rest (omega arith)
read_length-too_long ending acc (d ∷ ds) rest h b =
    ground (arith, read_length-too_long ending (acc ++ d ∷ []) ds rest, length-append acc (d ∷ []))

pub encode_bytes :
    (content rest : Bytes)
    → encode_netstring content ++ rest
      ≡ decimal (length content) ++ (b':' ∷ (content ++ (b',' ∷ rest)))
unfolding encode_netstring
encode_bytes content rest = simp append_assoc

-- The length field of an encoded content of less than 10^8 bytes is read whole.
pub length_field-encode_netstring :
    (content rest : Bytes) (ending : Ending)
    → length content < 10 ^ 8
    → length_field (record { bytes = encode_netstring content ++ rest; ending = ending }) ≡ (
      ok (decimal (length content)),
      record { bytes = content ++ (b',' ∷ rest); ending = ending },
    )
unfolding length_field
length_field-encode_netstring content rest ending h = rw (
  encode_bytes,
  read_length-digits ending [] (decimal (length content)) (content ++ (b',' ∷ rest))
      (decimal-AllDigits (length content)) (omega (arith, length-decimal-le (length content) 7 h)),
)

pub read_body-content :
    (ds content rest : Bytes) (ending : Ending)
    → 0 < length ds
    → value 0 ds ≡ length content
    → length content ≤ max_content_size
    → read_body ds (record { bytes = content ++ (b',' ∷ rest); ending = ending })
      ≡ (ok content, record { bytes = rest; ending = ending })
unfolding read_body
read_body-content [] content rest ending p v h = elim p [ ]
read_body-content (d ∷ ds) content rest ending p v h = rw v (
    ground (
      arith,
      length-append content (b',' ∷ rest),
      take-append content (b',' ∷ rest),
      drop-append content (b',' ∷ rest),
    ))

pub read_netstring_lem :
    (s : Stream) → read_netstring s ≡ continue (length_field s).0 read_body (length_field s).1
unfolding read_netstring length_field read_body
read_netstring_lem s = refl

-- Reading back an encoded content that is within the limit gives that content and leaves what
-- follows it unread, whatever follows and however the stream ends.
pub read_netstring-encode_netstring :
    (content rest : Bytes) (ending : Ending)
    → length content ≤ max_content_size
    → read_netstring (record { bytes = encode_netstring content ++ rest; ending = ending })
      ≡ (ok content, record { bytes = rest; ending = ending })
read_netstring-encode_netstring content rest ending h =
    rw (read_netstring_lem, length_field-encode_netstring content rest ending (omega arith))
      (read_body-content (decimal (length content)) content rest ending
        (length-decimal-pos (length content)) (value-decimal (length content)) h)

-- Two contents within the limit that are encoded alike are the same.
pub encode_netstring-injective :
    (a b : Bytes)
    → length a ≤ max_content_size
    → length b ≤ max_content_size
    → encode_netstring a ≡ encode_netstring b
    → a ≡ b
encode_netstring-injective a b ha hb e =
    let read_a = read_netstring-encode_netstring a [] Ending.closed ha in
    let read_b = read_netstring-encode_netstring b [] Ending.closed hb in cc (read_a, read_b, e)

-- A stream at its end gives a protocol error.
pub read_netstring-closed :
    read_netstring (record { bytes = []; ending = closed })
    ≡ (raise (protocol_error closed_in_length), record { bytes = []; ending = closed })
unfolding read_netstring length_field read_length
read_netstring-closed = refl
