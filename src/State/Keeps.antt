-- ===== src/State/Keeps.antt =====
-- Invariants of actions on a state: one rule for each way in which an action is built.
use pclipsync.Base.{Bool, true, false, if◌then◌else◌}
use pclipsync.Exec.{Exec, Exn, Result, ok, raise, catch, recover, continue, ◌>>=◌}

-- `m` keeps `P`, whether it returns or raises.
pub record Keeps {S : Type 0} (P : S → Type 0) {A : Type 0} (m : Exec S A) : Type 0 where
  pub at : (s : S) → P s → P (m s).1

module _ {S : Type 0} {P : S → Type 0} {A : Type 0} where
  pub Keeps-pure : (a : A) → Keeps P (λ s. (ok a, s))
  Keeps-pure a = record { at = λ s h. h }

  pub Keeps-answer : (f : S → Result A) → Keeps P (λ s. (f s, s))
  Keeps-answer f = record { at = λ s h. h }

  pub Keeps-if : (b : Bool) (m n : Exec S A) → Keeps P m → Keeps P n → Keeps P (if b then m else n)
  Keeps-if true m n km kn = km
  Keeps-if false m n km kn = kn

  pub Keeps-catch :
      (m : Exec S A) (h : Exn → Exec S A)
      → Keeps P m
      → ((x : Exn) → Keeps P (h x))
      → Keeps P (catch m h)
  Keeps-catch m h km kh = record { at = λ s p. go (m s).0 (m s).1 (km.at s p) }
    where
      go : (r : Result A) (t : S) → P t → P (recover h r t).1
      go (ok a) t p = p
      go (raise x) t p = (kh x).at t p

module _ {S : Type 0} {P : S → Type 0} {A B : Type 0} where
  pub Keeps-continue :
      (r : Result A) (f : A → Exec S B) (t : S)
      → ((a : A) → Keeps P (f a))
      → P t
      → P (continue r f t).1
  Keeps-continue (ok a) f t kf p = (kf a).at t p
  Keeps-continue (raise x) f t kf p = p

  pub Keeps-bind :
      (m : Exec S A) (f : A → Exec S B) → Keeps P m → ((a : A) → Keeps P (f a)) → Keeps P (m >>= f)
  Keeps-bind m f km kf = record { at = λ s p. Keeps-continue (m s).0 f (m s).1 kf (km.at s p) }
