-- ===== src/Base/Dict.antt =====
-- Python dicts in insertion order, keyed by pairs of numbers: (requestor window, property atom).
use Prim.Native.Nat.{ℕ, suc, ◌+◌, ◌-◌, ◌<◌}
use mathlib.Core.Path.{◌≡◌, refl}
use mathlib.Core.Bool.{Bool, true, false, ◌&&◌}
use mathlib.Core.Option.{Option, none, some}
use mathlib.Core.List.{List, [], ◌∷◌, ◌++◌}
use native.Mathlib.Omega.{arith}
use pclipsync.Base.Compare.{◌==◌, ltb, if◌then◌else◌}

abbrev pub Key : Type 0
Key = ℕ × ℕ

abbrev pub key_eq : Key → Key → Bool
key_eq (a, b) (c, d) = a == c && b == d

abbrev pub Dict {ℓ} : Type ℓ → Type ℓ
Dict V = List (Key × V)

module _ {ℓ} {V : Type ℓ} where
  -- `d.get(k)`
  unfoldable pub get : Key → Dict V → Option V
  get k [] = none
  get k ((j, v) ∷ d) = if key_eq j k then some v else get k d

  -- `d[k] = v`: a key that is there keeps its place.
  unfoldable pub put : Key → V → Dict V → Dict V
  put k v [] = (k, v) ∷ []
  put k v ((j, w) ∷ d) = if key_eq j k then (j, v) ∷ d else (j, w) ∷ put k v d

  -- `del d[k]`
  unfoldable pub erase : Key → Dict V → Dict V
  erase k [] = []
  erase k ((j, w) ∷ d) = if key_eq j k then d else (j, w) ∷ erase k d

  -- `sum(1 for key in d if key[0] == w)`
  unfoldable pub count_first : ℕ → Dict V → ℕ
  count_first w [] = 0
  count_first w (((a, b), v) ∷ d) = if a == w then suc (count_first w d) else count_first w d

  abbrev pub NodupKeys : Dict V → Type ℓ
  NodupKeys [] = Unit
  NodupKeys ((k, v) ∷ d) = (get k d ≡ none) × NodupKeys d

  pub get-put :
      (k j : Key) (v : V) (d : Dict V)
      → get j (put k v d) ≡ (if key_eq k j then some v else get j d)
  unfolding get put
  get-put (a, b) (c, e) v [] = refl
  get-put (a, b) (c, e) v (((x, y), w) ∷ d) = ground (arith, get-put (a, b) (c, e) v d)

  pub get-erase_ne : (k j : Key) (d : Dict V) → key_eq k j ≡ false → get j (erase k d) ≡ get j d
  unfolding get erase
  get-erase_ne (a, b) (c, e) [] h = refl
  get-erase_ne (a, b) (c, e) (((x, y), w) ∷ d) h = ground (arith, get-erase_ne (a, b) (c, e) d)

  pub get-erase_self : (k : Key) (d : Dict V) → NodupKeys d → get k (erase k d) ≡ none
  unfolding get erase
  get-erase_self (a, b) [] u = refl
  get-erase_self (a, b) (((x, y), w) ∷ d) u = ground (arith, get-erase_self (a, b) d)

  pub put-NodupKeys : (k : Key) (v : V) (d : Dict V) → NodupKeys d → NodupKeys (put k v d)
  unfolding get put
  put-NodupKeys (a, b) v [] u = (refl, tt)
  put-NodupKeys (a, b) v (((x, y), w) ∷ d) u =
      ground (arith, put-NodupKeys (a, b) v d, get-put (a, b) (x, y) v d)

  pub get-erase-none : (k j : Key) (d : Dict V) → get j d ≡ none → get j (erase k d) ≡ none
  unfolding get erase
  get-erase-none (a, b) (c, e) [] h = refl
  get-erase-none (a, b) (c, e) (((x, y), w) ∷ d) h = ground (arith, get-erase-none (a, b) (c, e) d)

  pub erase-NodupKeys : (k : Key) (d : Dict V) → NodupKeys d → NodupKeys (erase k d)
  unfolding erase
  erase-NodupKeys (a, b) [] u = tt
  erase-NodupKeys (a, b) (((x, y), w) ∷ d) u =
      ground (arith, erase-NodupKeys (a, b) d, get-erase-none (a, b) (x, y) d)

  pub count_first_pos : (w p : ℕ) (d : Dict V) {v : V} → get (w, p) d ≡ some v → 0 < count_first w d
  unfolding get count_first
  count_first_pos w p [] h = cc
  count_first_pos w p (((a, b), x) ∷ d) {v} h = ground (arith, count_first_pos w p d {v = v})

  pub count_first-erase :
      (w p u : ℕ) (d : Dict V) {v : V}
      → get (w, p) d ≡ some v
      → count_first u (erase (w, p) d) ≡ (if w == u then count_first u d - 1 else count_first u d)
  unfolding get erase count_first
  count_first-erase w p u [] h = cc
  count_first-erase w p u (((a, b), x) ∷ d) {v} h =
      ground (arith, count_first-erase w p u d {v = v}, count_first_pos w p d {v = v})

  abbrev pub added : Option V → ℕ
  added none = 1
  added (some v) = 0

  pub count_first-put :
      (w p u : ℕ) (v : V) (d : Dict V)
      → count_first u (put (w, p) v d)
        ≡ (if w == u then count_first u d + added (get (w, p) d) else count_first u d)
  unfolding get put count_first
  count_first-put w p u v [] = ground arith
  count_first-put w p u v (((a, b), x) ∷ d) = ground (arith, count_first-put w p u v d)

  -- A key that is listed once is found and erased where it stands.
  pub get-middle :
      (k : Key) (v : V) (kept rest : Dict V)
      → NodupKeys (kept ++ (k, v) ∷ rest)
      → (get k (kept ++ (k, v) ∷ rest) ≡ some v) × (erase k (kept ++ (k, v) ∷ rest) ≡ kept ++ rest)
  unfolding get erase
  get-middle (a, b) v [] rest u = ground arith
  get-middle (a, b) v (((x, y), w) ∷ kept) rest u = ground (arith, get-middle (a, b) v kept rest)

  -- Whether a window has an entry once one was put under it.
  pub count_first-put_pos :
      (w p u : ℕ) (v : V) (d : Dict V)
      → ltb 0 (count_first u (put (w, p) v d)) ≡ (if w == u then true else ltb 0 (count_first u d))
  unfolding put count_first
  count_first-put_pos w p u v [] = ground arith
  count_first-put_pos w p u v (((a, b), x) ∷ d) = ground (arith, count_first-put_pos w p u v d)
