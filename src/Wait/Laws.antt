-- ===== src/Wait/Laws.antt =====
-- What waiting changes, and what it keeps, in selection_utils.py.
use pclipsync.Base.{
  ℕ, ◌≡◌, refl, sym, ap, subst, suc, ◌≤◌, length, Bool, true, false, Option, none, some, List, [],
  ◌∷◌, ◌++◌, append_assoc, append-nil, arith, leb, if◌then◌else◌, Bool-cases, inl, inr,
}
use pclipsync.Exec.{Result, ok}
use pclipsync.X11.{Event, Poll, deliver, idle, lost}
use pclipsync.State.{ClipboardState}
use pclipsync.Wait.{is_deferred, polled, polled_lost, defer, wait_loop}

-- What holds whatever is polled and whatever is deferred.
pub record Unqueued (P : ClipboardState → Type 0) : Type 0 where
  pub at_poll :
      (now wall : ℕ) (rest : List Poll) (s : ClipboardState) → P s → P (polled now wall rest s)
  pub at_lost : (rest : List Poll) (s : ClipboardState) → P s → P (polled_lost rest s)
  pub at_defer : (e : Event) (s : ClipboardState) → P s → P (defer e s)

module _ {P : ClipboardState → Type 0} (U : Unqueued P) (test : Event → Bool) (deadline : ℕ) where
  -- Waiting keeps what does not speak of the queue of events.
  pub wait_loop_keeps :
      (polls : List Poll) (s : ClipboardState) → P s → P (wait_loop test deadline polls s).1
  unfolding wait_loop
  wait_loop_keeps [] s p = U.at_lost [] s p
  wait_loop_keeps (deliver now wall e ∷ rest) s p =
      let p' = U.at_poll now wall rest s p in
      elim (Bool-cases (test e)) [
        | inl hit ↦ rw hit p'
        | inr miss ↦
            rw miss (wait_loop_keeps rest (defer e (polled now wall rest s)) (U.at_defer e _ p'))
      ]
  wait_loop_keeps (idle now wall readable ∷ rest) s p =
      let p' = U.at_poll now wall rest s p in
      elim (Bool-cases (leb deadline now)) [
        | inl late ↦ rw late p'
        | inr early ↦ elim (Bool-cases readable) [
          | inl ready ↦ rw (early, ready) (wait_loop_keeps rest (polled now wall rest s) p')
          | inr timeout ↦ rw (early, timeout) p'
        ]
      ]
  wait_loop_keeps (lost x ∷ rest) s p = U.at_lost rest s p

-- The events of polls that are kept: those that the test refuses, if they are of the kept types.
abbrev pub kept : (Event → Bool) → List Poll → List Event
kept test [] = []
kept test (deliver now wall e ∷ rest) =
    let later = kept test rest in
    if test e then later else if is_deferred e then e ∷ later else later
kept test (_ ∷ rest) = kept test rest

-- The polls that were used are a part in front; every selection request and every change of owner
-- among them is deferred, once and in order, behind what was deferred before; an event that is
-- returned passed the test and is not deferred.
pub record Waited (test : Event → Bool) (polls : List Poll) (s : ClipboardState)
    (r : Result (Option Event) × ClipboardState) : Type 0 where
  pub used : List Poll
  pub splits : polls ≡ used ++ r.1.display.polls
  pub deferred : r.1.deferred_events ≡ s.deferred_events ++ kept test used
  pub passed : (e : Event) → r.0 ≡ ok (some e) → test e ≡ true

module _ (test : Event → Bool) (deadline : ℕ) where
  kept_cons :
      (e : Event) (now wall : ℕ) (used : List Poll) (s : ClipboardState) (t : List Event)
      → test e ≡ false
      → t ≡ (defer e s).deferred_events ++ kept test used
      → t ≡ s.deferred_events ++ kept test (deliver now wall e ∷ used)
  kept_cons e now wall used s t miss h =
      ground (arith, append_assoc s.deferred_events (e ∷ []) (kept test used))

  timed_out :
      (p : Poll) (now wall : ℕ) (rest : List Poll) (s : ClipboardState)
      → kept test (p ∷ []) ≡ []
      → Waited test (p ∷ rest) s (ok none, polled now wall rest s)
  timed_out p now wall rest s e = record {
    used = p ∷ [];
    splits = refl;
    deferred = rw e (sym (append-nil _));
    passed = λ e h. cc;
  }

  -- Waiting uses a front part of the polls, defers the selection requests and changes of owner
  -- among them that the test refuses, once and in order, behind those deferred before, and returns
  -- only an event that passes the test.
  pub wait_loop_lem :
      (polls : List Poll) (s : ClipboardState)
      → Waited test polls s (wait_loop test deadline polls s)
  unfolding wait_loop
  wait_loop_lem [] s = record {
    used = [];
    splits = refl;
    deferred = sym (append-nil _);
    passed = λ e h. cc;
  }
  wait_loop_lem (deliver now wall e ∷ rest) s =
      let q = wait_loop_lem rest (defer e (polled now wall rest s)) in
      elim (Bool-cases (test e)) [
        | inl hit ↦ rw hit (record {
          used = deliver now wall e ∷ [];
          splits = refl;
          deferred = rw hit (sym (append-nil _));
          passed = λ e' h. cc;
        })
        | inr miss ↦ rw miss (record {
          used = deliver now wall e ∷ q.used;
          splits = ap (λ l. deliver now wall e ∷ l) q.splits;
          deferred = kept_cons e now wall q.used (polled now wall rest s) _ miss q.deferred;
          passed = q.passed;
        })
      ]
  wait_loop_lem (idle now wall false ∷ rest) s = elim (Bool-cases (leb deadline now)) [
    | inl late ↦ rw late (timed_out (idle now wall false) now wall rest s refl)
    | inr early ↦ rw early (timed_out (idle now wall false) now wall rest s refl)
  ]
  wait_loop_lem (idle now wall true ∷ rest) s =
      let q = wait_loop_lem rest (polled now wall rest s) in
      elim (Bool-cases (leb deadline now)) [
        | inl late ↦ rw late (timed_out (idle now wall true) now wall rest s refl)
        | inr early ↦ rw early (record {
          used = idle now wall true ∷ q.used;
          splits = ap (λ l. idle now wall true ∷ l) q.splits;
          deferred = q.deferred;
          passed = q.passed;
        })
      ]
  wait_loop_lem (lost x ∷ rest) s = record {
    used = lost x ∷ [];
    splits = refl;
    deferred = sym (append-nil _);
    passed = λ e h. cc;
  }

  -- An event that is returned was taken off the polls.
  pub wait_loop_uses :
      (polls : List Poll) (s u : ClipboardState) (e : Event)
      → wait_loop test deadline polls s ≡ (ok (some e), u)
      → suc (length u.display.polls) ≤ length polls
  unfolding wait_loop
  wait_loop_uses [] s u e h = cc
  wait_loop_uses (deliver now wall e' ∷ rest) s u e h = elim (Bool-cases (test e')) [
    | inl hit ↦
        let same : polled now wall rest s ≡ u = cc in
        subst (λ x. suc (length x.display.polls) ≤ suc (length rest)) same (ground arith)
    | inr miss ↦
        let on : wait_loop test deadline rest (defer e' (polled now wall rest s))
            ≡ (ok (some e), u) =
          cc in
        let shorter = wait_loop_uses rest (defer e' (polled now wall rest s)) u e on in ground arith
  ]
  wait_loop_uses (idle now wall false ∷ rest) s u e h = elim (Bool-cases (leb deadline now)) [
    | inl late ↦ cc
    | inr early ↦ cc
  ]
  wait_loop_uses (idle now wall true ∷ rest) s u e h = elim (Bool-cases (leb deadline now)) [
    | inl late ↦ cc
    | inr early ↦
        let on : wait_loop test deadline rest (polled now wall rest s) ≡ (ok (some e), u) = cc in
        let shorter = wait_loop_uses rest (polled now wall rest s) u e on in ground arith
  ]
  wait_loop_uses (lost x ∷ rest) s u e h = cc
