-- ===== src/Base/Lists.antt =====
-- Lists measured and cut by native numbers, under the library's names.
use Prim.Native.Nat.{ℕ, zero, suc, ◌+◌, ◌-◌, ◌≤◌, min}
use mathlib.Core.Path.{◌≡◌, refl, sym, ap, ◌∙◌}
use mathlib.Core.Bool.{Bool, false, ◌||◌}
use mathlib.Core.List.{List, [], ◌∷◌, ◌++◌, append-nil, append_assoc}
use native.Mathlib.Nat.{zero-add, add-zero, suc-add, zero-min, min-zero, suc-min-suc}
use native.Mathlib.Omega.{arith}
use pclipsync.Base.Compare.{◌==◌}

module _ {ℓ} {A : Type ℓ} where
  abbrev pub length : List A → ℕ
  length [] = 0
  length (x ∷ xs) = suc (length xs)

  abbrev pub take : ℕ → List A → List A
  take zero xs = []
  take (suc n) [] = []
  take (suc n) (x ∷ xs) = x ∷ take n xs

  abbrev pub drop : ℕ → List A → List A
  drop zero xs = xs
  drop (suc n) [] = []
  drop (suc n) (x ∷ xs) = drop n xs

  pub length-append : (xs ys : List A) → length (xs ++ ys) ≡ length xs + length ys
  length-append [] ys = omega arith
  length-append (x ∷ xs) ys = omega (arith, length-append xs ys)

  pub take-append-drop : (n : ℕ) (xs : List A) → take n xs ++ drop n xs ≡ xs
  take-append-drop zero xs = refl
  take-append-drop (suc n) [] = refl
  take-append-drop (suc n) (x ∷ xs) = ap (λ l. x ∷ l) (take-append-drop n xs)

  pub length-take : (n : ℕ) (xs : List A) → length (take n xs) ≡ min n (length xs)
  length-take zero xs = omega arith
  length-take (suc n) [] = omega arith
  length-take (suc n) (x ∷ xs) = omega (arith, length-take n xs)

  pub length-drop : (n : ℕ) (xs : List A) → length (drop n xs) ≡ length xs - n
  length-drop zero xs = omega arith
  length-drop (suc n) [] = omega arith
  length-drop (suc n) (x ∷ xs) = omega (arith, length-drop n xs)

  -- Taking from, and dropping, a prefix of known length.
  pub take-append : (xs ys : List A) → take (length xs) (xs ++ ys) ≡ xs
  take-append [] ys = refl
  take-append (x ∷ xs) ys = ap (λ l. x ∷ l) (take-append xs ys)

  pub drop-append : (xs ys : List A) → drop (length xs) (xs ++ ys) ≡ ys
  drop-append [] ys = refl
  drop-append (x ∷ xs) ys = drop-append xs ys

  -- Two slices that meet: dropping `m` items and then `n` is dropping `m + n`.
  pub drop-drop : (m n : ℕ) (xs : List A) → drop n (drop m xs) ≡ drop (m + n) xs
  drop-drop zero n xs = rw (zero-add n)
  drop-drop (suc m) zero [] = rw (add-zero (suc m))
  drop-drop (suc m) (suc n) [] = rw (suc-add m (suc n))
  drop-drop (suc m) n (x ∷ xs) = rw (suc-add m n) (drop-drop m n xs)

  -- Taking beyond the end takes all.
  pub take-min : (k : ℕ) (xs : List A) → take (min k (length xs)) xs ≡ take k xs
  take-min zero xs = rw zero-min
  take-min (suc k) [] = rw (min-zero (suc k))
  take-min (suc k) (x ∷ xs) = rw (suc-min-suc k (length xs)) (ap (λ l. x ∷ l) (take-min k xs))

  -- The slice `xs[a : min(a + c, len(xs))]`.
  pub take-slice :
      (c a : ℕ) (xs : List A) → take (min (a + c) (length xs) - a) (drop a xs) ≡ take c (drop a xs)
  take-slice c a xs =
      ap (λ k. take k (drop a xs)) (omega (arith, length-drop a xs)) ∙ take-min c (drop a xs)

  take-nil : (n : ℕ) → (let e : List A = [] in take n e ≡ e)
  take-nil zero = refl
  take-nil (suc n) = refl

  -- Two slices that meet.
  pub take-append-take : (m n : ℕ) (xs : List A) → take m xs ++ take n (drop m xs) ≡ take (m + n) xs
  take-append-take zero n xs = rw (zero-add n)
  take-append-take (suc m) n [] = rw (suc-add m n) (take-nil n)
  take-append-take (suc m) n (x ∷ xs) = rw (suc-add m n) (ap (λ l. x ∷ l) (take-append-take m n xs))

  pub take-all : (n : ℕ) (xs : List A) → length xs ≤ n → take n xs ≡ xs
  take-all zero [] h = refl
  take-all zero (x ∷ xs) h = absurd (omega arith)
  take-all (suc n) [] h = refl
  take-all (suc n) (x ∷ xs) h = ap (λ l. x ∷ l) (take-all n xs (omega arith))

  abbrev pub flatten : List (List A) → List A
  flatten [] = []
  flatten (x ∷ xs) = x ++ flatten xs

  pub flatten-concat : (xs : List (List A)) (y : List A) → flatten (xs ++ y ∷ []) ≡ flatten xs ++ y
  flatten-concat [] y = append-nil y
  flatten-concat (x ∷ xs) y = rw (flatten-concat xs y) (sym (append_assoc x (flatten xs) y))

-- Python's `in` on a list of numbers.
unfoldable pub contains : ℕ → List ℕ → Bool
contains a [] = false
contains a (x ∷ xs) = a == x || contains a xs

abbrev pub All {ℓ κ} : {A : Type ℓ} → (A → Type κ) → List A → Type κ
All P [] = Unit
All P (x ∷ xs) = P x × All P xs

pub All-append {ℓ κ} :
    {A : Type ℓ} (P : A → Type κ) (xs ys : List A) → All P xs → All P ys → All P (xs ++ ys)
All-append P [] ys hx hy = hy
All-append P (x ∷ xs) ys hx hy = (hx.0, All-append P xs ys hx.1 hy)
