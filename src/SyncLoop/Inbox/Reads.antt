-- ===== src/SyncLoop/Inbox/Reads.antt =====
-- The loop of sync_loop_inner.py over the bytes of encoded contents does what the loop over their
-- list does.
use pclipsync.Base.{
  ℕ, suc, ◌≤◌, ◌≡◌, refl, ap, ◌∙◌, Bool, true, false, List, [], ◌∷◌, arith, length, All,
}
use pclipsync.Exec.{Result, ok, raise, pure, continue, ◌>>=◌}
use pclipsync.Protocol.{Ending, is_goodbye}
use pclipsync.Protocol.RoundTrip.{read_netstring-encode_netstring}
use pclipsync.X11.{Bytes, Outside}
use pclipsync.State.{ClipboardState}
use pclipsync.Sync.{handle_incoming_content}
use pclipsync.SyncLoop.{
  process_x11_events, send_goodbye, Session, Wake, Outcome, stay, leave, x11_round, read_round,
  shutdown_round, round, sync_loop_inner,
}
use pclipsync.SyncLoop.Rounds.{messages}
use pclipsync.SyncLoop.Inbox.{
  Inbox, x11_handled, delivered, taken, shut_down, inbox_round, inbox_loop, counted, reads,
  IsWithinLimit, IsReady, StaysReady,
}
use pclipsync.SyncLoop.Inbox.Ready.{x11_handled-IsReady, after_round}

module _ (O : Outside) (rest : Bytes) (ending : Ending) (s : Session) where
  -- The same with the contents as a stream of bytes.
  abbrev pub as_session : Inbox → Session
  as_session i = record s {
    state = i.state;
    reader = record { bytes = messages i.contents rest; ending = ending };
  }

  abbrev pub as_result : {A : Type 0} → Result A × Inbox → Result A × Session
  as_result (r, i) = (r, as_session i)

  x11_round-as_session :
      (b : Bool) (i : Inbox) → x11_round O b (as_session i) ≡ as_result (x11_handled O b i)
  unfolding x11_round x11_handled
  x11_round-as_session false i = refl
  x11_round-as_session true i = refl

  stays :
      (r : Result (Unit {0})) (i : Inbox)
      → continue r (λ _. pure stay) (as_session i) ≡ as_result (continue r (λ _. pure stay) i)
  stays (ok tt) i = refl
  stays (raise x) i = refl

  leaves :
      (r : Result (Unit {0})) (i : Inbox)
      → continue r (λ _. pure leave) (as_session i) ≡ as_result (continue r (λ _. pure leave) i)
  leaves (ok tt) i = refl
  leaves (raise x) i = refl

  deliver-as_session :
      (c : Bytes) (i : Inbox)
      → pclipsync.SyncLoop.deliver O c (as_session i) ≡ as_result (delivered O c i)
  unfolding pclipsync.SyncLoop.deliver delivered is_goodbye
  deliver-as_session [] i = refl
  deliver-as_session (b ∷ c) i =
      let (r, t) = handle_incoming_content O (b ∷ c) i.state in stays r (record i { state = t })

  read_first :
      (c : Bytes) (cs : List Bytes) (t : ClipboardState)
      → IsWithinLimit c
      → read_round O true (as_session (record { state = t; contents = c ∷ cs }))
        ≡ as_result (delivered O c (record { state = t; contents = cs }))
  unfolding read_round
  read_first c cs t fits =
      rw (read_netstring-encode_netstring c (messages cs rest) ending fits)
        (deliver-as_session c (record { state = t; contents = cs }))

  read_done :
      (n : ℕ) (t : ClipboardState) (cs : List Bytes)
      → IsReady (suc n) (record { state = t; contents = cs })
      → read_round O true (as_session (record { state = t; contents = cs }))
        ≡ as_result (taken O true (record { state = t; contents = cs }))
  unfolding taken
  read_done n t [] (h, le) = absurd (omega arith)
  read_done n t (c ∷ cs) (h, le) = read_first c cs t h.0

  read_round-as_session :
      (b : Bool) (n : ℕ) (i : Inbox)
      → IsReady (counted b n) i
      → read_round O b (as_session i) ≡ as_result (taken O b i)
  unfolding taken
  read_round-as_session false n i h = unfold read_round in refl
  read_round-as_session true n i h = read_done n i.state i.contents h

  shutdown_round-as_session :
      (b : Bool) (o : Outcome) (i : Inbox)
      → shutdown_round O b o (as_session i) ≡ as_result (shut_down O b o i)
  unfolding shutdown_round shut_down
  shutdown_round-as_session b leave i = refl
  shutdown_round-as_session false stay i = refl
  shutdown_round-as_session true stay i =
      let (r, t) = send_goodbye O i.state in leaves r (record i { state = t })

  then_shutdown :
      (b : Bool) (r : Result Outcome) (i : Inbox)
      → continue r (λ o. shutdown_round O b o) (as_session i)
        ≡ as_result (continue r (λ o. shut_down O b o) i)
  then_shutdown b (ok o) i = shutdown_round-as_session b o i
  then_shutdown b (raise x) i = refl

  then_read :
      (w : Wake) (n : ℕ) (r : Result (Unit {0})) (i : Inbox)
      → IsReady (counted w.read_task n) i
      → continue r
          (λ _. read_round O w.read_task >>= λ o. shutdown_round O w.shutdown_task o)
          (as_session i)
        ≡ as_result (continue r (λ _. taken O w.read_task >>= λ o. shut_down O w.shutdown_task o) i)
  then_read w n (ok tt) i h =
      let (r, i') = taken O w.read_task i in
      ap
        (λ (p : Result Outcome × Session).
          continue p.0 (λ o. shutdown_round O w.shutdown_task o) p.1)
        (read_round-as_session w.read_task n i h)
      ∙ then_shutdown w.shutdown_task r i'
  then_read w n (raise x) i h = refl

  round-as_session :
      (w : Wake) (n : ℕ) (i : Inbox)
      → IsReady (counted w.read_task n) i
      → round O w (as_session i) ≡ as_result (inbox_round O w i)
  unfolding round inbox_round
  round-as_session w n i h =
      let (r, i') = x11_handled O w.x11_task i in
      ap
        (λ (p : Result (Unit {0}) × Session).
          continue p.0 (λ _. read_round O w.read_task >>= λ o. shutdown_round O w.shutdown_task o)
            p.1)
        (x11_round-as_session w.x11_task i)
      ∙ then_read w n r i' (x11_handled-IsReady O w.x11_task _ i h)

  then_rounds :
      (wakes : List Wake) (r : Result Outcome) (i : Inbox)
      → StaysReady (reads wakes) (r, i)
      → ((j : Inbox)
          → IsReady (reads wakes) j
          → sync_loop_inner O wakes (as_session j) ≡ as_result (inbox_loop O wakes j))
      → continue r
          (λ o. elim o [ leave ↦ pure leave | stay ↦ sync_loop_inner O wakes ])
          (as_session i)
        ≡ as_result (continue r (λ o. elim o [ leave ↦ pure leave | stay ↦ inbox_loop O wakes ]) i)
  unfolding StaysReady
  then_rounds wakes (ok stay) i h again = again i h
  then_rounds wakes (ok leave) i h again = refl
  then_rounds wakes (raise x) i h again = refl

  -- Whatever else is done between the reads, and whatever is raised: over a stream of encoded
  -- contents, each within the limit, with no more reads than contents, the loop does exactly what
  -- the loop over the list of the contents does, where an empty content is the goodbye, and leaves
  -- the encodings of the contents that are left.
  pub sync_loop_inner-inbox_loop :
      (wakes : List Wake) (i : Inbox)
      → All IsWithinLimit i.contents
      → reads wakes ≤ length i.contents
      → sync_loop_inner O wakes (as_session i) ≡ as_result (inbox_loop O wakes i)
  unfolding sync_loop_inner inbox_loop
  sync_loop_inner-inbox_loop [] i h le = refl
  sync_loop_inner-inbox_loop (w ∷ wakes) i h le =
      let (r, i') = inbox_round O w i in
      ap
        (λ (p : Result Outcome × Session).
          continue p.0 (λ o. elim o [ leave ↦ pure leave | stay ↦ sync_loop_inner O wakes ]) p.1)
        (round-as_session w (reads wakes) i (h, le))
      ∙ then_rounds wakes r i' (after_round O w (reads wakes) i (h, le))
          (λ j ready. sync_loop_inner-inbox_loop wakes j ready.0 ready.1)
