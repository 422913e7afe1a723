-- ===== src/Tests/Progress.antt =====
-- Transfers that move on, and selections that are taken, at concrete values:
-- clipboard_selection_process.py, clipboard_io.py and sync_handlers.py.
use pclipsync.Base.{◌≡◌, refl, false, List, [], ◌∷◌, arith}
use pclipsync.Base.Dict.{get, count_first}
use pclipsync.X11.{
  Poll, deliver, idle, property_notify, set_selection_owner_notify, new_value, deleted,
  property_and_structure, change_attributes,
}
use pclipsync.State.{IncrSendState, ClipboardState}
use pclipsync.ClipboardIo.{chunk_loop}
use pclipsync.ClipboardIo.Fuel.{chunk_loop-enough}
use pclipsync.Incr.Subscribe.{subscribed}
use pclipsync.Incr.Cleanup.{IsWellFormed}
use pclipsync.Incr.View.{view}
use pclipsync.Selection.{process_pending_events}
use pclipsync.Selection.Progress.{acked_times, acknowledgement_count}
use pclipsync.Selection.Progress.Ends.{HasEnded, view-process_pending_events}
use pclipsync.SyncLoop.Looks.{done, look, incoming, Looks-HasEnded}
use pclipsync.Sync.{handle_incoming_content}
use pclipsync.Sync.Ownership.{Owns, handle_incoming_content-Owns}
use pclipsync.Tests.Samples.{outside, accepts, display, idle_state, hello}

abbrev transfer : IncrSendState
transfer = record {
  requestor = 9;
  property_atom = 40;
  target_atom = 102;
  selection_atom = 100;
  content = hello;
  offset = 0;
  start_time = 39000;
  completion_sent = false;
}

-- The requestor has taken a chunk.
abbrev taken : Poll
taken =
    deliver 1 40001 (property_notify (record { window = 9; atom = 40; time = 1; state = deleted }))

-- Acknowledgements of the transfer, and a change of owner among them.
abbrev queue : List Poll
queue =
    taken
    ∷ deliver 2 40002 (set_selection_owner_notify 1 8)
    ∷ taken
    ∷ taken
    ∷ idle 3 40003 false
    ∷ []

abbrev busy : ClipboardState
busy = record idle_state {
  display = record display {
    history = change_attributes 9 property_and_structure ∷ [];
    polls = queue;
  };
  pending_incr_sends = ((9, 40), transfer) ∷ [];
}

busy-IsWellFormed : IsWellFormed busy
unfolding get subscribed count_first
busy-IsWellFormed = record {
  nodup = (refl, tt);
  keyed = (refl, refl, tt);
  tracked = record { tracks = λ w. ground arith };
}

view-process_pending_events_example :
    view 9 40 (process_pending_events outside busy).1
    ≡ acked_times (acknowledgement_count 9 40 queue) (view 9 40 busy)
unfolding get
view-process_pending_events_example =
    view-process_pending_events outside accepts 9 40 busy busy-IsWellFormed
      (λ st found. ground (arith, found)) (refl, (refl, (refl, (refl, tt))))

-- One look, a message from the remote side, and no more.
Looks-HasEnded_example :
    HasEnded transfer busy
      (handle_incoming_content outside hello (process_pending_events outside busy).1).1
unfolding get process_pending_events pclipsync.Incr.cleanup_stale_incr_sends
    pclipsync.Incr.is_incr_send_event pclipsync.Incr.handle_incr_send_event
    pclipsync.Incr.send_incr_chunk pclipsync.Incr.write_chunk pclipsync.Base.Dict.put
    pclipsync.Wait.is_deferred pclipsync.Incr.unsubscribe_incr_requestor count_first
Looks-HasEnded_example =
    Looks-HasEnded outside accepts transfer busy-IsWellFormed refl
      (look {s = busy} (λ st found. ground (arith, found)) (refl, (refl, (refl, (refl, tt))))
        (incoming {s = (process_pending_events outside busy).1} hello refl done) refl)
      (omega arith)

-- One chunk of a content is announced.
abbrev announced : ClipboardState
announced = record idle_state {
  display = record display {
    polls =
        deliver 1 40001
          (property_notify (record { window = 7; atom = 104; time = 1; state = new_value }))
        ∷ [];
  };
}

chunk_loop-enough_example :
    chunk_loop outside 2 104 [] announced ≡ chunk_loop outside 9 104 [] announced
chunk_loop-enough_example =
    chunk_loop-enough outside 104 2 9 [] announced (omega arith) (omega arith)

handle_incoming_content-Owns_example :
    Owns hello (1 ∷ 100 ∷ []) (handle_incoming_content outside hello idle_state).1
handle_incoming_content-Owns_example =
    handle_incoming_content-Owns outside accepts hello idle_state (record { grants = λ h a. refl })
      (λ e. omega (arith, e))
