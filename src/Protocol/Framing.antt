-- ===== src/Protocol/Framing.antt =====
-- What `read_netstring` of protocol.py accepts, and what it refuses.
use pclipsync.Base.{
  ◌^◌, ◌≤◌, ◌<◌, ◌≡◌, ◌↔◌, [], ◌∷◌, ◌++◌, append_assoc, arith, ltb, length, take-append-drop,
  length-take, ◌≢◌, Bool-cases, inl, inr, ◌∙◌, ap, if◌then◌else◌,
}
use pclipsync.Exec.{too_large, too_many_digits, protocol_error, ok, raise, >>=-eq-ok}
use pclipsync.Protocol.{
  Bytes, max_content_size, max_length_digits, encode_netstring, Ending, Stream, read_length,
  length_field, read_body, read_netstring,
}
use pclipsync.Protocol.Decimal.{
  decimal, value, AllDigits, AllDigits-append, value-decimal, decimal-AllDigits, length-decimal-pos,
  lt-length-decimal,
}
use pclipsync.Protocol.RoundTrip.{
  read_netstring_lem, length_field-encode_netstring, encode_bytes, read_length-too_long,
  read_length-digits, read_body-content,
}

-- A length field that is read consists of at most eight digits, and a colon follows it.
read_length_sound :
    (ending : Ending) (acc bytes : Bytes) {field rest : Bytes}
    → AllDigits acc
    → read_length ending acc bytes ≡ (ok field, rest)
    → AllDigits field × (length field ≤ 8) × (acc ++ bytes ≡ field ++ (b':' ∷ rest))
unfolding read_length
read_length_sound Ending.closed acc [] d h = ground arith
read_length_sound Ending.broken acc [] d h = ground arith
read_length_sound ending acc (c ∷ bytes) {field} {rest} d h = ground (
  arith,
  read_length_sound ending (acc ++ c ∷ []) bytes {field = field} {rest = rest},
  AllDigits-append acc (c ∷ []) d,
  append_assoc acc (c ∷ []) bytes,
)

read_body_sound :
    (field bytes : Bytes) (ending : Ending) {content : Bytes} {t : Stream}
    → read_body field (record { bytes = bytes; ending = ending }) ≡ (ok content, t)
    → (field ≢ [])
      × (value 0 field ≡ length content)
      × (length content ≤ max_content_size)
      × (bytes ≡ content ++ (b',' ∷ t.bytes))
      × (t.ending ≡ ending)
unfolding read_body
read_body_sound field bytes ending {content} {t} h =
    ground (arith, length-take (value 0 field) bytes, take-append-drop (value 0 field) bytes)

length_field_sound :
    (bytes : Bytes) (ending : Ending) {field : Bytes} {u : Stream}
    → length_field (record { bytes = bytes; ending = ending }) ≡ (ok field, u)
    → AllDigits field
      × (length field ≤ 8)
      × (bytes ≡ field ++ (b':' ∷ u.bytes))
      × (u ≡ record { bytes = u.bytes; ending = ending })
unfolding length_field
length_field_sound bytes ending {field} {u} h =
    ground (arith, read_length_sound ending [] bytes {field = field} {rest = u.bytes})

-- The bytes are a netstring of the content, within the limits of the protocol, and the rest.
pub record IsNetstring (bytes content rest : Bytes) : Type 0 where
  pub field : Bytes
  pub all_digits : AllDigits field
  pub not_empty : field ≢ []
  pub short : length field ≤ max_length_digits
  pub counts : value 0 field ≡ length content
  pub fits : length content ≤ max_content_size
  pub spells : bytes ≡ field ++ (b':' ∷ (content ++ (b',' ∷ rest)))

read_parts :
    (field bytes content : Bytes) (ending : Ending) (u t : Stream)
    → length_field (record { bytes = bytes; ending = ending }) ≡ (ok field, u)
    → read_body field u ≡ (ok content, t)
    → IsNetstring bytes content t.bytes × (t.ending ≡ ending)
read_parts field bytes content ending u t read body =
    let (d, short, spelled, same) = length_field_sound bytes ending {field = field} {u = u} read in
    let (ne, counts, fits, spells, kept) =
      read_body_sound field u.bytes ending {content = content} {t = t} (rw same at body) in
    (
      record {
        field = field;
        all_digits = d;
        not_empty = ne;
        short = short;
        counts = counts;
        fits = fits;
        spells = spelled ∙ ap (λ r. field ++ (b':' ∷ r)) spells;
      },
      kept,
    )

read_netstring_sound :
    (bytes : Bytes) (ending : Ending) {content : Bytes} {t : Stream}
    → read_netstring (record { bytes = bytes; ending = ending }) ≡ (ok content, t)
    → IsNetstring bytes content t.bytes × (t.ending ≡ ending)
read_netstring_sound bytes ending {content} {t} h =
    let s : Stream = record { bytes = bytes; ending = ending } in
    let (field, u, read, body) = >>=-eq-ok length_field read_body s (rw read_netstring_lem at h) in
    read_parts field bytes content ending u t read body

complete :
    (bytes content rest : Bytes) (ending : Ending)
    → IsNetstring bytes content rest
    → read_netstring (record { bytes = bytes; ending = ending })
      ≡ (ok content, record { bytes = rest; ending = ending })
unfolding length_field
complete bytes content rest ending n =
    rw
      (
        n.spells,
        read_netstring_lem,
        read_length-digits ending [] n.field (content ++ (b',' ∷ rest)) n.all_digits
            (omega (arith, n.short)),
      )
      (read_body-content n.field content rest ending (ground (arith, n.not_empty)) n.counts n.fits)

-- On any bytes and however they end, read_netstring returns a content and leaves a rest exactly if
-- the bytes are a length field of one to eight digits that counts the content, a colon, the
-- content, which is within the limit, a comma and that rest.
pub read_netstring_iff :
    (bytes content rest : Bytes) (ending : Ending)
    → (read_netstring (record { bytes = bytes; ending = ending })
        ≡ (ok content, record { bytes = rest; ending = ending }))
      ↔ IsNetstring bytes content rest
read_netstring_iff bytes content rest ending = (
  λ h.
      (read_netstring_sound bytes ending {content = content}
        {t = record { bytes = rest; ending = ending }} h).0,
  complete bytes content rest ending,
)

oversized_body :
    (field : Bytes) (s : Stream)
    → 0 < length field
    → max_content_size < value 0 field
    → (read_body field s).0 ≡ raise (protocol_error (too_large (value 0 field)))
unfolding read_body
oversized_body [] s p h = elim p [ ]
oversized_body (d ∷ ds) s p h = ground arith

oversized_length :
    (content : Bytes) (s : Stream)
    → max_content_size < length content
    → (read_body (decimal (length content)) s).0
      ≡ raise (protocol_error (too_large (length content)))
oversized_length content s h =
    oversized_body (decimal (length content)) s (length-decimal-pos (length content))
      (rw value-decimal h)
    ∙ ap (λ n. raise (protocol_error (too_large n))) (value-decimal (length content))

too_many :
    (content rest : Bytes) (ending : Ending)
    → 10 ^ 8 ≤ length content
    → (length_field (record { bytes = encode_netstring content ++ rest; ending = ending })).0
      ≡ raise (protocol_error too_many_digits)
unfolding length_field
too_many content rest ending h = rw encode_bytes (
    read_length-too_long ending [] (decimal (length content)) _ (decimal-AllDigits (length content))
      (omega (arith, lt-length-decimal (length content) 8 h)))

-- An encoded content over the limit is refused, for its size below 10^8 bytes and for its number
-- of digits from there on.
pub read_netstring-oversized :
    (content rest : Bytes) (ending : Ending)
    → max_content_size < length content
    → (read_netstring (record { bytes = encode_netstring content ++ rest; ending = ending })).0
      ≡ raise (
          protocol_error
            (if ltb (length content) (10 ^ 8) then too_large (length content) else too_many_digits))
read_netstring-oversized content rest ending h = elim (Bool-cases (ltb (length content) (10 ^ 8))) [
  | inl small ↦
      rw
        (
          read_netstring_lem,
          length_field-encode_netstring content rest ending (ground arith),
          small,
        )
        (oversized_length content (record { bytes = content ++ (b',' ∷ rest); ending = ending }) h)
  | inr large ↦ rw (read_netstring_lem, too_many content rest ending (ground arith), large)
]
