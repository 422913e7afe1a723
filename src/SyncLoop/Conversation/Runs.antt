-- ===== src/SyncLoop/Conversation/Runs.antt =====
-- What whole runs of the loop of sync_loop.py write to the socket, up to the goodbye.
use pclipsync.Base.{
  ◌≡◌, ◌≢◌, refl, sym, ap, ◌∙◌, inl, inr, Bool, true, false, List, [], ◌∷◌, ◌++◌, append-nil, arith,
}
use pclipsync.Exec.{Result, ok, raise, pure, continue, ◌>>=◌}
use pclipsync.Protocol.{goodbye_message}
use pclipsync.X11.{Display, Bytes, Outside}
use pclipsync.State.{ClipboardState}
use pclipsync.Sync.Silent.{network}
use pclipsync.SyncLoop.{
  send_goodbye, Session, Wake, Outcome, stay, leave, read_round, shutdown_round, round,
  sync_loop_inner, remove_reader, run_sync_loop,
}
use pclipsync.SyncLoop.Rounds.{messages}
use pclipsync.SyncLoop.Keeps.{x11_round-Keeps, read_round-Keeps}
use pclipsync.SyncLoop.Conversation.{written, IsWire, IsConversation, behind, handled}

module _ (O : Outside) (b : Bytes) where
  quiet : (r : Result Outcome) (s : ClipboardState) → IsWire b s → IsConversation b (r, s.display)
  quiet r s p = record {
    contents = p.contents;
    rest = [];
    each = p.each;
    wrote = p.wrote;
    ended = inl refl;
  }

  network-send_goodbye :
      (s : ClipboardState)
      → network (send_goodbye O s).1.display.history ≡ goodbye_message ∷ network s.display.history
  unfolding send_goodbye network
  network-send_goodbye s = ground arith

  left-not_stay :
      (r : Result (Unit {0})) (s : Session) → (continue r (λ _. pure leave) s).0 ≢ ok stay
  left-not_stay (ok tt) s = λ e. cc
  left-not_stay (raise x) s = λ e. cc

  left-same : (r : Result (Unit {0})) (s : Session) → (continue r (λ _. pure leave) s).1 ≡ s
  left-same (ok tt) s = refl
  left-same (raise x) s = refl

  abbrev view : Result Outcome × Session → Result Outcome × Display
  view (r, s) = (r, s.state.display)

  shutdown_round-IsConversation :
      (shutdown : Bool) (o : Outcome) (s : Session)
      → IsWire b s.state
      → IsConversation b (view (shutdown_round O shutdown o s))
  unfolding shutdown_round
  shutdown_round-IsConversation shutdown leave s p = quiet _ _ p
  shutdown_round-IsConversation false stay s p = quiet _ _ p
  shutdown_round-IsConversation true stay s p =
      let (r, t) = send_goodbye O s.state in
      record {
        contents = p.contents;
        rest = goodbye_message;
        each = p.each;
        wrote =
            ap (λ (u : Session). written (network u.state.display.history))
              (left-same r (record s { state = t }))
            ∙ behind O b goodbye_message _ s.state p (network-send_goodbye s.state);
        ended = inr (refl, left-not_stay r (record s { state = t }));
      }

  then_shutdown :
      (shutdown : Bool) (r : Result Outcome) (s : Session)
      → IsWire b s.state
      → IsConversation b (view (continue r (λ o. shutdown_round O shutdown o) s))
  then_shutdown shutdown (ok o) s p = shutdown_round-IsConversation shutdown o s p
  then_shutdown shutdown (raise x) s p = quiet _ _ p

  then_read :
      (w : Wake) (r : Result (Unit {0})) (s : Session)
      → IsWire b s.state
      → IsConversation b (
          view (
            continue r
              (λ _. read_round O w.read_task >>= λ o. shutdown_round O w.shutdown_task o)
              s))
  then_read w (ok tt) s p =
      then_shutdown w.shutdown_task _ _ ((read_round-Keeps O (handled O b) w.read_task).at s p)
  then_read w (raise x) s p = quiet _ _ p

  round-IsConversation :
      (w : Wake) (s : Session) → IsWire b s.state → IsConversation b (view (round O w s))
  unfolding round
  round-IsConversation w s p = then_read w _ _ ((x11_round-Keeps O (handled O b) w.x11_task).at s p)

  -- A run that goes on has written no goodbye.
  goes_on : (s : ClipboardState) → IsConversation b (ok stay, s.display) → IsWire b s
  goes_on s p = record {
    contents = p.contents;
    each = p.each;
    wrote =
        p.wrote
        ∙ ap (λ m. b ++ messages p.contents m)
            (elim p.ended [ inl none_left ↦ none_left | inr (e, ends) ↦ absurd (ends refl) ]);
  }

  then_rounds :
      (wakes : List Wake) (r : Result Outcome) (s : Session)
      → ((t : Session) → IsWire b t.state → IsConversation b (view (sync_loop_inner O wakes t)))
      → IsConversation b (r, s.state.display)
      → IsConversation b (
          view (continue r (λ o. elim o [ leave ↦ pure leave | stay ↦ sync_loop_inner O wakes ]) s))
  then_rounds wakes (ok stay) s again p = again s (goes_on s.state p)
  then_rounds wakes (ok leave) s again p = p
  then_rounds wakes (raise x) s again p = p

  inner-IsConversation :
      (wakes : List Wake) (s : Session)
      → IsWire b s.state
      → IsConversation b (view (sync_loop_inner O wakes s))
  unfolding sync_loop_inner
  inner-IsConversation [] s p = quiet _ _ p
  inner-IsConversation (w ∷ wakes) s p =
      then_rounds wakes _ _ (inner-IsConversation wakes) (round-IsConversation w s p)

  removed :
      (r : Result Outcome × Session)
      → IsConversation b (view r)
      → IsConversation b (view (remove_reader O r))
  unfolding remove_reader
  removed (ok stay, s) p = p
  removed (ok leave, s) p = p
  removed (raise x, s) p = p

-- Whatever the X server, the other applications and the remote side do, in whatever order, and
-- however the run ends: it writes to the socket, behind what was written before, only encoded
-- messages that are not empty and within the limit, and behind them at most one goodbye, and that
-- only if it has ended.
pub run_sync_loop-IsConversation :
    (O : Outside) (wakes : List Wake) (s : Session)
    → let (r, t) = run_sync_loop O wakes s in
      IsConversation (written (network s.state.display.history)) (r, t.state.display)
unfolding run_sync_loop
run_sync_loop-IsConversation O wakes s = removed O _ _ (
    inner-IsConversation O _ wakes (record s { watching = true })
      (record { contents = []; each = tt; wrote = sym (append-nil _) }))
