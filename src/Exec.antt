-- ===== src/Exec.antt =====
-- Methods that change state and may raise. What was written before an exception stays written, so
-- the state comes back beside the exception too.
use pclipsync.Base.{ℕ, ◌≡◌, refl, Bool, true, false}

-- Why `read_netstring` raises `ProtocolError`, one constructor for each message of protocol.py.
pub data ProtocolFailure : Type 0 where
  closed_in_length : ProtocolFailure
  invalid_character : ℕ → ProtocolFailure
  too_many_digits : ProtocolFailure
  empty_length : ProtocolFailure
  too_large : ℕ → ProtocolFailure
  closed_in_content : ProtocolFailure
  no_comma : ProtocolFailure

-- The exceptions that some handler of the program tells apart. `ConnectionError` and
-- `TimeoutError` are subclasses of `OSError`; `other_error` is any other `Exception` (one of
-- python-xlib's, say), and `system_exit` is `sys.exit`, which `except Exception` lets pass.
pub data Exn : Type 0 where
  protocol_error : ProtocolFailure → Exn
  connection_refused : Exn
  connection_error : Exn
  timeout_error : Exn
  os_error : Exn
  other_error : Exn
  usage_error : Exn
  system_exit : ℕ → Exn

-- `except Exception`
abbrev pub is_exception : Exn → Bool
is_exception (system_exit n) = false
is_exception _ = true

-- `except ProtocolError`
abbrev pub is_protocol_error : Exn → Bool
is_protocol_error (protocol_error f) = true
is_protocol_error _ = false

-- `except ConnectionError`
abbrev pub is_connection_error : Exn → Bool
is_connection_error connection_refused = true
is_connection_error connection_error = true
is_connection_error _ = false

-- `except OSError`
abbrev pub is_os_error : Exn → Bool
is_os_error connection_refused = true
is_os_error connection_error = true
is_os_error timeout_error = true
is_os_error os_error = true
is_os_error _ = false

pub data Result {ℓ} (A : Type ℓ) : Type ℓ where
  ok : A → Result A
  raise : Exn → Result A

abbrev pub Exec : Type 0 → Type 0 → Type 0
Exec S A = S → Result A × S

module _ {S A : Type 0} where
  abbrev pub pure : A → Exec S A
  pure a s = (ok a, s)

  abbrev pub throw : Exn → Exec S A
  throw e s = (raise e, s)

module _ {S A B : Type 0} where
  abbrev pub continue : Result A → (A → Exec S B) → Exec S B
  continue (ok a) f s = f a s
  continue (raise e) f s = (raise e, s)

  infixl 5 ◌>>=◌
  abbrev pub ◌>>=◌ : Exec S A → (A → Exec S B) → Exec S B
  ◌>>=◌ m f s = continue (m s).0 f (m s).1

module _ {S B : Type 0} where
  infixl 5 ◌>>◌
  abbrev pub ◌>>◌ : Exec S (Unit {0}) → Exec S B → Exec S B
  m >> k = m >>= λ _. k

module _ {S : Type 0} where
  abbrev pub gets : {A : Type 0} → (S → A) → Exec S A
  gets f s = (ok (f s), s)

  abbrev pub modify : (S → S) → Exec S (Unit {0})
  modify f s = (ok tt, f s)

  abbrev pub recover : {A : Type 0} → (Exn → Exec S A) → Result A → Exec S A
  recover h (ok a) s = (ok a, s)
  recover h (raise e) s = h e s

  -- `try: m` with a handler that sees the exception, and the state as it was left.
  abbrev pub catch : {A : Type 0} → Exec S A → (Exn → Exec S A) → Exec S A
  catch m h s = recover h (m s).0 (m s).1

-- Inversion of a successful bind, for proofs where the parts stay shut.
module _ {S A B : Type 0} where
  pub >>=-eq-ok :
      (m : Exec S A) (f : A → Exec S B) (s : S) {b : B} {t : S}
      → (m >>= f) s ≡ (ok b, t)
      → (a : A) × (u : S) × (m s ≡ (ok a, u)) × (f a u ≡ (ok b, t))
  >>=-eq-ok m f s {b} {t} h = go (m s).0 refl h
    where
      go :
          (r : Result A)
          → (m s).0 ≡ r
          → continue r f (m s).1 ≡ (ok b, t)
          → (a : A) × (u : S) × (m s ≡ (ok a, u)) × (f a u ≡ (ok b, t))
      go (ok a) e h = (a, (m s).1, λ i. (e i, (m s).1), h)
      go (raise x) e h = cc
