-- ===== src/Protocol/Reference.antt =====
-- `read_netstring` of protocol.py reads byte by byte; this is what it amounts to on a whole input,
-- in terms of the longest run of digits in front, on every input and with every error.
use pclipsync.Base.{
  ℕ, zero, suc, ◌+◌, ◌-◌, ◌≤◌, ◌≡◌, refl, ap, ◌∙◌, [], ◌∷◌, ◌++◌, append-nil, append_assoc, arith,
  ltb, ◌==◌, if◌then◌else◌, length, length-append, take, drop, bytes_eq,
}
use pclipsync.Exec.{
  closed_in_length, invalid_character, too_many_digits, empty_length, too_large, closed_in_content,
  no_comma, protocol_error, Result, ok, raise, continue,
}
use pclipsync.Protocol.{
  Bytes, max_content_size, max_length_digits, Ending, Stream, at_end, read_length, length_field,
  read_exactly, read_one, is_comma, read_body, read_netstring,
}
use pclipsync.Protocol.Decimal.{is_digit, value}

-- How many digits the bytes begin with.
digit_count : Bytes → ℕ
digit_count [] = 0
digit_count (c ∷ cs) = let n = digit_count cs in if is_digit c then suc n else 0

-- What must follow the digits, and what follows that.
after_digits : Ending → Bytes → Bytes → Result Bytes × Bytes
after_digits ending field [] = (at_end ending (raise (protocol_error closed_in_length)), [])
after_digits ending field (c ∷ rest) =
    if c == b':' then (ok field, rest) else (raise (protocol_error (invalid_character c)), rest)

after_content : Ending → Bytes → Bytes → Result Bytes × Bytes
after_content ending content [] = (at_end ending (raise (protocol_error no_comma)), [])
after_content ending content (c ∷ rest) =
    if c == b',' then (ok content, rest) else (raise (protocol_error no_comma), rest)

content_of_size : Ending → ℕ → Bytes → Result Bytes × Bytes
unfolding after_content
content_of_size ending size bytes =
    if ltb (length bytes) size
    then (at_end ending (raise (protocol_error closed_in_content)), [])
    else after_content ending (take size bytes) (drop size bytes)

sized : Ending → Result Bytes × Bytes → Result Bytes × Bytes
unfolding content_of_size
sized ending (raise x, rest) = (raise x, rest)
sized ending (ok [], rest) = (raise (protocol_error empty_length), rest)
sized ending (ok (d ∷ ds), rest) =
    let size = value 0 (d ∷ ds) in
    if ltb max_content_size size
    then (raise (protocol_error (too_large size)), rest)
    else content_of_size ending size rest

-- The whole digits in front are the length: more than eight are too many.
split_length : Ending → Bytes → Bytes → Result Bytes × Bytes
unfolding digit_count after_digits
split_length ending acc bytes =
    let n = digit_count bytes in
    if ltb max_length_digits (length acc + n)
    then (raise (protocol_error too_many_digits), drop (9 - length acc) bytes)
    else after_digits ending (acc ++ take n bytes) (drop n bytes)

-- The netstring in front of the bytes, and what is left of them.
unfoldable pub parse_netstring : Ending → Bytes → Result Bytes × Bytes
unfolding sized split_length
parse_netstring ending bytes = sized ending (split_length ending [] bytes)

drop-pred : (n : ℕ) (c : ℕ) (cs : Bytes) → 1 ≤ n → drop n (c ∷ cs) ≡ drop (n - 1) cs
drop-pred zero c cs h = absurd (omega arith)
drop-pred (suc n) c cs h = ap (λ k. drop k cs) (omega arith)

read_length-split_length :
    (ending : Ending) (acc bytes : Bytes)
    → length acc ≤ 9
    → read_length ending acc bytes ≡ split_length ending acc bytes
unfolding read_length split_length digit_count after_digits is_digit
read_length-split_length ending acc [] h = ground (arith, append-nil acc)
read_length-split_length ending acc (c ∷ cs) h = ground (
  arith,
  read_length-split_length ending (acc ++ c ∷ []) cs,
  append_assoc acc (c ∷ []) (take (digit_count cs) cs),
  append-nil acc,
  length-append acc (c ∷ []),
  drop-pred (9 - length acc) c cs,
)

-- What follows the length field.
read_body-sized :
    (ending : Ending) (field rest : Bytes)
    → read_body field (record { bytes = rest; ending = ending }) ≡ (
        let (r, left) = sized ending (ok field, rest) in
        (r, record { bytes = left; ending = ending }))
unfolding read_body read_exactly read_one is_comma bytes_eq sized content_of_size after_content
read_body-sized ending [] rest = refl
read_body-sized ending (d ∷ ds) rest = ground arith

then_body :
    (ending : Ending) (p : Result Bytes × Bytes)
    → continue p.0 read_body (record { bytes = p.1; ending = ending })
      ≡ (let (r, left) = sized ending p in (r, record { bytes = left; ending = ending }))
unfolding sized
then_body ending (ok field, rest) = read_body-sized ending field rest
then_body ending (raise x, rest) = refl

-- On every input and however it ends, read_netstring gives the same content or the same error as
-- the parse of the whole input by its longest run of digits in front, and leaves the same bytes.
pub read_netstring-parse_netstring :
    (s : Stream)
    → read_netstring s
      ≡ (let (r, rest) = parse_netstring s.ending s.bytes in (r, record s { bytes = rest }))
unfolding read_netstring length_field parse_netstring
read_netstring-parse_netstring s =
    ap
      (λ (p : Result Bytes × Bytes).
        continue p.0 read_body (record { bytes = p.1; ending = s.ending }))
      (read_length-split_length s.ending [] s.bytes (omega arith))
    ∙ then_body s.ending (split_length s.ending [] s.bytes)
