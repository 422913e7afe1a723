-- ===== src/SyncLoop/WellFormed.antt =====
-- The transfers in progress stay well formed through every run of the loop of sync_loop_inner.py.
use pclipsync.Base.{refl, Bool, true, false, none, List, [], ◌∷◌}
use pclipsync.Exec.{Result, ok, raise, pure, modify}
use pclipsync.Protocol.{goodbye_message}
use pclipsync.X11.{
  Bytes, Atom, Event, selection_request, set_selection_owner_notify, write, drain, Outside,
}
use pclipsync.State.{Accepts}
use pclipsync.State.Keeps.{Keeps, Keeps-pure, Keeps-answer, Keeps-if, Keeps-catch, Keeps-bind}
use pclipsync.HashState.{HashState, clear_received_hash, clear_sent_hash}
use pclipsync.Incr.Cleanup.{IsWellFormed}
use pclipsync.Sync.{discard, handle_incoming_content}
use pclipsync.SyncLoop.{
  lose_ownership, handle_event, handle_events, process_x11_events, send_goodbye, Session, Wake,
  Outcome, stay, leave, shutdown_round, round, sync_loop_inner, remove_reader, run_sync_loop,
}
use pclipsync.Sync.Handles.{Handles, handle_clipboard_change-Keeps, handle_incoming_content-Keeps}
use pclipsync.SyncLoop.Keeps.{on_state-Keeps, Handled, x11_round-Keeps, read_round-Keeps}
use pclipsync.Selection.WellFormed.{
  same, untouched, IsWellFormed-Passive, asked-IsWellFormed, asks, loss-Keeps,
  selection_request-Keeps, pending_events-Keeps,
}

IsWellFormed-Handles : Handles IsWellFormed
IsWellFormed-Handles = record {
  passive = IsWellFormed-Passive;
  at_write = λ bytes s. asked-IsWellFormed (write bytes) s refl;
  at_hashes = λ k s. same s _ refl refl;
  at_content = λ c s. same s _ refl refl;
}

module _ (O : Outside) (A : Accepts O) where
  set_hashes-Keeps :
      (f : HashState → HashState)
      → Keeps IsWellFormed (modify (λ s. record s { hash_state = f s.hash_state }))
  set_hashes-Keeps f = record { at = λ s. same s _ refl refl }

  -- Handling an incoming content keeps the transfers well formed.
  pub incoming-Keeps : (c : Bytes) → Keeps IsWellFormed (handle_incoming_content O c)
  incoming-Keeps c = handle_incoming_content-Keeps O IsWellFormed-Handles c

  lose_ownership-Keeps : (a : Atom) → Keeps IsWellFormed (lose_ownership O a)
  unfolding lose_ownership
  lose_ownership-Keeps a =
      Keeps-bind (modify (λ s. record s { owned_selections = discard a s.owned_selections })) _
        (untouched _ (λ s. refl) (λ s. refl))
        λ _. Keeps-bind _ _ (loss-Keeps O A a) λ _.
          Keeps-bind _ _ (set_hashes-Keeps (λ k. clear_sent_hash (clear_received_hash k))) λ _.
            untouched
              (λ s. record s {
                acquisition_time = elim s.owned_selections [
                  | [] ↦ none
                  | _ ∷ _ ↦ s.acquisition_time
                ];
              })
              (λ s. refl) (λ s. refl)

  -- Handling one event keeps the transfers well formed.
  pub event-Keeps : (e : Event) → Keeps IsWellFormed (handle_event O e)
  unfolding handle_event
  event-Keeps (selection_request e) =
      Keeps-bind _ _ (Keeps-answer (λ s. ok s.current_content)) λ content.
        Keeps-bind _ _ (Keeps-answer (λ s. ok s.acquisition_time)) λ time.
          Keeps-bind _ _ (Keeps-answer (λ s. ok s.incr_atom))
            λ incr_atom. selection_request-Keeps O A e content time incr_atom
  event-Keeps (set_selection_owner_notify a owner) =
      Keeps-bind _ _ (Keeps-answer (λ s. ok s.window)) λ window.
        Keeps-bind _ _ (Keeps-if _ _ _ (Keeps-pure tt) (lose_ownership-Keeps a))
          λ _. handle_clipboard_change-Keeps O IsWellFormed-Handles a
  event-Keeps _ = Keeps-pure tt

  events-Keeps : (events : List Event) → Keeps IsWellFormed (handle_events O events)
  unfolding handle_events
  events-Keeps [] = Keeps-pure tt
  events-Keeps (e ∷ events) = Keeps-bind _ _ (event-Keeps e) λ _. events-Keeps events

  -- One look at the X11 events keeps the transfers well formed.
  pub process_x11_events-IsWellFormed : Keeps IsWellFormed (process_x11_events O)
  unfolding process_x11_events
  process_x11_events-IsWellFormed =
      Keeps-bind _ _ (pending_events-Keeps O A) λ events. events-Keeps events

  goodbye-Keeps : Keeps IsWellFormed (send_goodbye O)
  unfolding send_goodbye
  goodbye-Keeps =
      Keeps-catch _ _
        (Keeps-bind _ _ (asks O A (write goodbye_message) refl) λ _. asks O A drain refl)
        λ x. Keeps-if _ _ _ (Keeps-pure tt) (Keeps-answer (λ s. raise x))

  abbrev InSession : Session → Type 0
  InSession s = IsWellFormed s.state

  handled : Handled O IsWellFormed
  handled = record {
    at_x11 = process_x11_events-IsWellFormed;
    at_incoming = incoming-Keeps;
    at_clear = untouched _ (λ s. refl) (λ s. refl);
  }

  shutdown_round-Keeps : (b : Bool) (o : Outcome) → Keeps InSession (shutdown_round O b o)
  unfolding shutdown_round
  shutdown_round-Keeps b leave = Keeps-pure leave
  shutdown_round-Keeps false stay = Keeps-pure stay
  shutdown_round-Keeps true stay =
      Keeps-bind _ _ (on_state-Keeps _ goodbye-Keeps) λ _. Keeps-pure leave

  round-Keeps : (w : Wake) → Keeps InSession (round O w)
  unfolding round
  round-Keeps w = Keeps-bind _ _ (x11_round-Keeps O handled w.x11_task) λ _.
      Keeps-bind _ _ (read_round-Keeps O handled w.read_task)
        λ o. shutdown_round-Keeps w.shutdown_task o

  go_on-Keeps :
      (wakes : List Wake) (o : Outcome)
      → Keeps InSession (sync_loop_inner O wakes)
      → Keeps InSession (elim o [ leave ↦ pure leave | stay ↦ sync_loop_inner O wakes ])
  go_on-Keeps wakes leave k = Keeps-pure leave
  go_on-Keeps wakes stay k = k

  inner-Keeps : (wakes : List Wake) → Keeps InSession (sync_loop_inner O wakes)
  unfolding sync_loop_inner
  inner-Keeps [] = Keeps-pure stay
  inner-Keeps (w ∷ wakes) =
      Keeps-bind _ _ (round-Keeps w) λ o. go_on-Keeps wakes o (inner-Keeps wakes)

  -- On an X server that takes every request, from a well-formed state: whatever events, messages
  -- and shutdowns arrive, in whatever order, and however the loop ends, the transfers stay well
  -- formed, with no key twice, each transfer under its own window and property, and a window
  -- watched exactly while it has a transfer.
  pub run_sync_loop-IsWellFormed :
      (wakes : List Wake) (s : Session)
      → IsWellFormed s.state
      → IsWellFormed (run_sync_loop O wakes s).1.state
  unfolding run_sync_loop remove_reader
  run_sync_loop-IsWellFormed wakes s wf =
      left (sync_loop_inner O wakes (record s { watching = true }))
        ((inner-Keeps wakes).at (record s { watching = true }) wf)
    where
      left :
          (r : Result Outcome × Session)
          → IsWellFormed r.1.state
          → IsWellFormed (remove_reader O r).1.state
      left (ok stay, t) p = p
      left (ok leave, t) p = p
      left (raise x, t) p = p
