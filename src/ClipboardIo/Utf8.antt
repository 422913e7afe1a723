-- ===== src/ClipboardIo/Utf8.antt =====
-- `str.encode("utf-8")` of clipboard_io.py, over code points: lone surrogates cannot be encoded.
use pclipsync.Base.{ℕ, ◌+◌, ◌/◌, ◌%◌, ◌&&◌, List, [], ◌∷◌, ◌++◌, ltb, leb, if◌then◌else◌}
use pclipsync.Exec.{other_error, Result, ok, raise}

-- A continuation byte.
abbrev trail : ℕ → ℕ
trail n = 0x80 + n % 64

encode_char : ℕ → Result (List ℕ)
encode_char c =
    if ltb c 0x80
    then ok (c ∷ [])
    else if ltb c 0x800
    then ok ((0xc0 + c / 64) ∷ trail c ∷ [])
    else if leb 0xd800 c && leb c 0xdfff
    then raise other_error
    else if ltb c 0x10000
    then ok ((0xe0 + c / 4096) ∷ trail (c / 64) ∷ trail c ∷ [])
    else ok ((0xf0 + c / 262144) ∷ trail (c / 4096) ∷ trail (c / 64) ∷ trail c ∷ [])

abbrev append_result : Result (List ℕ) → Result (List ℕ) → Result (List ℕ)
append_result (ok a) (ok b) = ok (a ++ b)
append_result (ok a) (raise x) = raise x
append_result (raise x) r = raise x

unfoldable pub encode_utf8 : List ℕ → Result (List ℕ)
unfolding encode_char
encode_utf8 [] = ok []
encode_utf8 (c ∷ cs) = append_result (encode_char c) (encode_utf8 cs)
