-- ===== src/SyncLoop/Inbox/Ready.antt =====
-- What is left of the contents after a round that goes on, in the loop over their list.
use pclipsync.Base.{ℕ, suc, Bool, true, false, List, [], ◌∷◌, arith}
use pclipsync.Exec.{Result, ok, raise, pure, continue, ◌>>=◌}
use pclipsync.X11.{Bytes, Outside}
use pclipsync.State.{ClipboardState}
use pclipsync.Sync.{handle_incoming_content}
use pclipsync.SyncLoop.{send_goodbye, Wake, Outcome, stay, leave}
use pclipsync.SyncLoop.Inbox.{
  Inbox, x11_handled, delivered, taken, shut_down, inbox_round, counted, IsReady, StaysReady,
}

module _ (O : Outside) where
  pub x11_handled-IsReady :
      (b : Bool) (n : ℕ) (i : Inbox) → IsReady n i → IsReady n (x11_handled O b i).1
  unfolding x11_handled
  x11_handled-IsReady false n i h = h
  x11_handled-IsReady true n i h = h

  after_shutdown :
      (b : Bool) (o : Outcome) (n : ℕ) (i : Inbox) → IsReady n i → StaysReady n (shut_down O b o i)
  unfolding shut_down StaysReady
  after_shutdown b leave n i h = tt
  after_shutdown false stay n i h = h
  after_shutdown true stay n i h = left (send_goodbye O i.state).0 _
    where
      left : (r : Result (Unit {0})) (i : Inbox) → StaysReady n (continue r (λ _. pure leave) i)
      left (ok tt) i = tt
      left (raise x) i = tt

  after_read :
      (b : Bool) (r : Result Outcome) (n : ℕ) (i : Inbox)
      → StaysReady n (r, i)
      → StaysReady n (continue r (λ o. shut_down O b o) i)
  unfolding shut_down StaysReady
  after_read b (ok stay) n i h = after_shutdown b stay n i h
  after_read b (ok leave) n i h = tt
  after_read b (raise x) n i h = tt

  after_delivered : (c : Bytes) (n : ℕ) (i : Inbox) → IsReady n i → StaysReady n (delivered O c i)
  unfolding delivered StaysReady
  after_delivered [] n i h = tt
  after_delivered (b ∷ c) n i h = left (handle_incoming_content O (b ∷ c) i.state).0 _ h
    where
      left :
          (r : Result (Unit {0})) (i : Inbox)
          → IsReady n i
          → StaysReady n (continue r (λ _. pure stay) i)
      left (ok tt) i h = h
      left (raise x) i h = tt

  after_taken_of :
      (n : ℕ) (t : ClipboardState) (cs : List Bytes)
      → IsReady (suc n) (record { state = t; contents = cs })
      → StaysReady n (taken O true (record { state = t; contents = cs }))
  unfolding taken
  after_taken_of n t [] (h, le) = absurd (omega arith)
  after_taken_of n t (c ∷ cs) (h, le) =
      after_delivered c n (record { state = t; contents = cs }) (h.1, omega arith)

  after_taken :
      (b : Bool) (n : ℕ) (i : Inbox) → IsReady (counted b n) i → StaysReady n (taken O b i)
  unfolding taken StaysReady
  after_taken false n i h = h
  after_taken true n i h = after_taken_of n i.state i.contents h

  after_x11 :
      (w : Wake) (n : ℕ) (r : Result (Unit {0})) (i : Inbox)
      → IsReady (counted w.read_task n) i
      → StaysReady n
          (continue r (λ _. taken O w.read_task >>= λ o. shut_down O w.shutdown_task o) i)
  unfolding StaysReady
  after_x11 w n (ok tt) i h =
      let (r, i') = taken O w.read_task i in
      after_read w.shutdown_task r n i' (after_taken w.read_task n i h)
  after_x11 w n (raise x) i h = tt

  pub after_round :
      (w : Wake) (n : ℕ) (i : Inbox)
      → IsReady (counted w.read_task n) i
      → StaysReady n (inbox_round O w i)
  unfolding inbox_round
  after_round w n i h =
      let (r, i') = x11_handled O w.x11_task i in
      after_x11 w n r i' (x11_handled-IsReady w.x11_task _ i h)
