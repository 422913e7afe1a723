-- ===== src/Sync/Returns.antt =====
-- Which handlers of sync_handlers.py return, where no look at the queue of events raises.
use pclipsync.Base.{
  ℕ, ◌+◌, ◌≡◌, refl, Bool, true, false, Bool-cases, inl, inr, Option, none, some, List, [], ◌∷◌,
  leb, ◌==◌, if◌then◌else◌,
}
use pclipsync.Exec.{Result, ok, pure, ◌>>◌}
use pclipsync.HashState.{record_received}
use pclipsync.X11.{
  Bytes, Atom, WindowId, Event, Request, get_selection_owner, change_property, set_selection_owner,
  flush, Outside, Poll, deliver, idle, lost,
}
use pclipsync.State.{ClipboardState, Io, asked, Accepts}
use pclipsync.Wait.{
  has_type, any_property_notify, polled, defer, wait_loop, wait_for_event_type, wait_until,
  get_server_timestamp, timestamp_timeout,
}
use pclipsync.Sync.{
  set_clipboard_content, own, add, stamp, mirror, claim, stamp_if_owner, handle_incoming_content,
}

-- Looks at the queue of events of which none raises.
abbrev pub NoneLost : List Poll → Type 0
NoneLost [] = Unit
NoneLost (lost x ∷ rest) = ⊥
NoneLost (_ ∷ rest) = NoneLost rest

-- An X server that always says who owns a selection.
pub record Answers (O : Outside) : Type 0 where
  pub owner : List Request → Atom → WindowId
  pub answers : (h : List Request) (a : Atom) → O.selection_owner h a ≡ ok (owner h a)

-- A call that has returned, with no look left that raises.
abbrev pub Returned : Result (Unit {0}) × ClipboardState → Type 0
Returned r = (r.0 ≡ ok tt) × NoneLost r.1.display.polls

-- One call behind another.
then-Returned :
    (m k : Io (Unit {0})) (s : ClipboardState)
    → Returned (m s)
    → ((t : ClipboardState) → NoneLost t.display.polls → Returned (k t))
    → Returned ((m >> k) s)
then-Returned m k s (e, h) g = rw e (g (m s).1 h)

module _ (O : Outside) (A : Accepts O) where
  wait_loop-returns :
      (test : Event → Bool) (deadline : ℕ) (polls : List Poll) (s : ClipboardState)
      → NoneLost polls
      → (o : Option Event) × ((wait_loop test deadline polls s).0 ≡ ok o)
  unfolding wait_loop
  wait_loop-returns test deadline [] s h = (none, refl)
  wait_loop-returns test deadline (lost x ∷ rest) s h = elim h [ ]
  wait_loop-returns test deadline (deliver now wall e ∷ rest) s h = elim (Bool-cases (test e)) [
    | inl hit ↦ rw hit (some e, refl)
    | inr miss ↦ rw miss (wait_loop-returns test deadline rest (defer e (polled now wall rest s)) h)
  ]
  wait_loop-returns test deadline (idle now wall readable ∷ rest) s h =
      elim (Bool-cases (leb deadline now)) [
        | inl late ↦ rw late (none, refl)
        | inr early ↦ elim (Bool-cases readable) [
          | inl ready ↦
              rw (early, ready) (wait_loop-returns test deadline rest (polled now wall rest s) h)
          | inr timeout ↦ rw (early, timeout) (none, refl)
        ]
      ]

  -- Waiting takes looks off the front of the queue only.
  NoneLost-wait_loop :
      (test : Event → Bool) (deadline : ℕ) (polls : List Poll) (s : ClipboardState)
      → NoneLost polls
      → NoneLost (wait_loop test deadline polls s).1.display.polls
  unfolding wait_loop
  NoneLost-wait_loop test deadline [] s h = tt
  NoneLost-wait_loop test deadline (lost x ∷ rest) s h = elim h [ ]
  NoneLost-wait_loop test deadline (deliver now wall e ∷ rest) s h = elim (Bool-cases (test e)) [
    | inl hit ↦ rw hit h
    | inr miss ↦
        rw miss (NoneLost-wait_loop test deadline rest (defer e (polled now wall rest s)) h)
  ]
  NoneLost-wait_loop test deadline (idle now wall readable ∷ rest) s h =
      elim (Bool-cases (leb deadline now)) [
        | inl late ↦ rw late h
        | inr early ↦ elim (Bool-cases readable) [
          | inl ready ↦
              rw (early, ready) (NoneLost-wait_loop test deadline rest (polled now wall rest s) h)
          | inr timeout ↦ rw (early, timeout) h
        ]
      ]

  stamp-returns : (s : ClipboardState) → NoneLost s.display.polls → (stamp O s).0 ≡ ok tt
  unfolding stamp get_server_timestamp wait_for_event_type wait_until
  stamp-returns s h =
      let s' : ClipboardState =
        asked flush (asked (change_property s.window O.dummy_atom O.integer_atom 32 (0 ∷ [])) s) in
      let (o, e) =
        wait_loop-returns (has_type any_property_notify) (s'.display.monotonic + timestamp_timeout)
          s'.display.polls s' h in
      simp (A.takes, e)

  NoneLost-stamp :
      (s : ClipboardState) → NoneLost s.display.polls → NoneLost (stamp O s).1.display.polls
  unfolding stamp get_server_timestamp wait_for_event_type wait_until
  NoneLost-stamp s h =
      let s' : ClipboardState =
        asked flush (asked (change_property s.window O.dummy_atom O.integer_atom 32 (0 ∷ [])) s) in
      let test = has_type any_property_notify in
      let deadline = s'.display.monotonic + timestamp_timeout in
      let (o, e) = wait_loop-returns test deadline s'.display.polls s' h in
      rw (A.takes, A.takes, e) (NoneLost-wait_loop test deadline s'.display.polls s' h)

  asked_for : Atom → ClipboardState → ClipboardState
  asked_for b s =
      asked (get_selection_owner b) (asked flush (asked (set_selection_owner s.window b) s))

  module _ (N : Answers O) where
    set_clipboard_content_lem :
        (b : Atom) (s : ClipboardState)
        → set_clipboard_content O b s ≡ (
          ok (N.owner (flush ∷ set_selection_owner s.window b ∷ s.display.history) b == s.window),
          asked_for b s,
        )
    unfolding set_clipboard_content asked_for
    set_clipboard_content_lem b s = simp (A.takes, N.answers)

    pub mirror-returns :
        (b : Atom) (s : ClipboardState) → NoneLost s.display.polls → (mirror O b s).0 ≡ ok tt
    unfolding mirror own asked_for
    mirror-returns b s h =
        rw (set_clipboard_content_lem b s) (
          taken
            (N.owner (flush ∷ set_selection_owner s.window b ∷ s.display.history) b == s.window))
      where
        taken :
            (given : Bool)
            → ((if given then own O b >> stamp O else pure tt) (asked_for b s)).0 ≡ ok tt
        taken true =
            stamp-returns (record (asked_for b s) { owned_selections = add b s.owned_selections }) h
        taken false = refl

    claim-Returned :
        (b : Atom) (s : ClipboardState) → NoneLost s.display.polls → Returned (claim O b s)
    unfolding claim own asked_for
    claim-Returned b s h =
        rw (set_clipboard_content_lem b s) (
          taken
            (N.owner (flush ∷ set_selection_owner s.window b ∷ s.display.history) b == s.window))
      where
        taken : (given : Bool) → Returned ((if given then own O b else pure tt) (asked_for b s))
        taken true = (refl, h)
        taken false = (refl, h)

    stamp_if_owner-Returned :
        (s : ClipboardState) → NoneLost s.display.polls → Returned (stamp_if_owner O s)
    unfolding stamp_if_owner
    stamp_if_owner-Returned s h = owned s.owned_selections
      where
        owned :
            (l : List Atom)
            → Returned ((elim l as (λ x. Io (Unit {0})) [ [] ↦ pure tt | _ ∷ _ ↦ stamp O ]) s)
        owned [] = (refl, h)
        owned (a ∷ l) = (stamp-returns s h, NoneLost-stamp s h)

    -- Handling a content from the remote side returns.
    pub handle_incoming_content-Returned :
        (c : Bytes) (s : ClipboardState)
        → NoneLost s.display.polls
        → Returned (handle_incoming_content O c s)
    unfolding handle_incoming_content
    handle_incoming_content-Returned c s h =
        let start : ClipboardState = record s {
          hash_state = record_received (O.sha256 c) s.hash_state;
          current_content = c;
          owned_selections = [];
        } in
        then-Returned (claim O s.clipboard_atom) (claim O O.primary_atom >> stamp_if_owner O) start
          (claim-Returned s.clipboard_atom start h)
          λ t g.
            then-Returned (claim O O.primary_atom) (stamp_if_owner O) t
              (claim-Returned O.primary_atom t g) (λ u k. stamp_if_owner-Returned u k)
