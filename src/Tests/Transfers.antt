-- ===== src/Tests/Transfers.antt =====
-- Transfers by the INCR protocol and answers at concrete values: the clipboard_selection modules,
-- clipboard_io.py and selection_utils.py.
use pclipsync.Base.{suc, ◌≡◌, refl, false, none, some, List, [], ◌∷◌, arith, ◌==◌, if◌then◌else◌}
use pclipsync.Base.Dict.{get, count_first}
use pclipsync.Exec.{other_error, Result, ok, raise}
use pclipsync.X11.{
  change_property, flush, deleted, set_selection_owner_notify, idle, Bytes, selection_request,
  selection_notify, property_notify, new_value, Event, property_and_structure, Request,
  change_attributes, send_event, Outside, Poll, deliver,
}
use pclipsync.State.{asked, IncrSendState, ClipboardState}
use pclipsync.Incr.{is_stale, reply, new_transfer, cleanup_stale_incr_sends, initiate_incr_send}
use pclipsync.Incr.Subscribe.{subscribed, IsTracked}
use pclipsync.Incr.Cleanup.{IsWellFormed, Cancels, cleanup_stale_incr_sends_lem}
use pclipsync.Incr.Initiate.{initiate_incr_send-refused}
use pclipsync.Incr.Transfer.{acknowledgements, chunk_count, Finished, transfer_lem}
use pclipsync.Selection.{process_pending_events, handle_selection_request}
use pclipsync.Selection.Replies.{notifies, handle_selection_request_lem}
use pclipsync.Wait.{get_server_timestamp, polled, any_selection_notify, has_type, wait_loop}
use pclipsync.Wait.Laws.{Waited, wait_loop_lem}
use pclipsync.ClipboardIo.{read_chunk_property}
use pclipsync.ClipboardIo.Reads.{await, Reads}
use pclipsync.ClipboardIo.Receive.{handshaken}
use pclipsync.Selection.Pending.{Pended, process_pending_events_lem}
use pclipsync.Wait.Timestamp.{with_polls, get_server_timestamp-property_notify}
use pclipsync.Tests.Samples.{request, outside, accepts, idle_state, display, hello}

abbrev transfer : IncrSendState
transfer = record {
  requestor = 9;
  property_atom = 40;
  target_atom = 102;
  selection_atom = 100;
  content = hello;
  offset = 0;
  start_time = 1000;
  completion_sent = false;
}

-- One transfer, whose requestor is watched.
abbrev busy : ClipboardState
busy = record idle_state {
  display = record display { history = change_attributes 9 property_and_structure ∷ [] };
  pending_incr_sends = ((9, 40), transfer) ∷ [];
}

busy-IsTracked : IsTracked busy
unfolding subscribed count_first
busy-IsTracked = record { tracks = λ w. ground arith }

busy-IsWellFormed : IsWellFormed busy
unfolding get
busy-IsWellFormed = record {
  nodup = (refl, tt);
  keyed = (refl, refl, tt);
  tracked = busy-IsTracked;
}

transfer_lem_example :
    Finished outside accepts transfer busy
      (acknowledgements outside (suc (suc (chunk_count hello))) 9 40 busy)
unfolding get
transfer_lem_example = transfer_lem outside accepts transfer busy refl (refl, tt)

cleanup_stale_incr_sends_lem_example :
    Cancels (is_stale 40000) busy (cleanup_stale_incr_sends outside busy)
cleanup_stale_incr_sends_lem_example =
    cleanup_stale_incr_sends_lem outside accepts busy busy-IsWellFormed

-- An X server that refuses every SelectionNotify that names a property.
abbrev refusal : Request → Result (Unit {0})
refusal (send_event w n) = if n.property == 0 then ok tt else raise other_error
refusal _ = ok tt

abbrev refusing : Outside
refusing = record outside { perform = λ h r. refusal r }

initiate_incr_send-refused_example :
    ((initiate_incr_send refusing request hello 106 idle_state).0 ≡ raise other_error)
    × (get (9, 40) (initiate_incr_send refusing request hello 106 idle_state).1.pending_incr_sends
        ≡ some (new_transfer request hello 40000))
    × (subscribed 9 (initiate_incr_send refusing request hello 106 idle_state).1.display.history
        ≡ false)
initiate_incr_send-refused_example =
    initiate_incr_send-refused refusing request hello 106 idle_state (record {
      takes_attributes = λ h m. refl;
      takes_property = λ h t v. refl;
      takes_flush = λ h. refl;
      refuses = λ h. refl;
      takes_refusal = λ h. refl;
    })

handle_selection_request_lem_example :
    ((handle_selection_request outside request hello none 106 idle_state).0 ≡ ok tt)
    × (notifies
          (handle_selection_request outside request hello none 106 idle_state).1.display.history
        ≡ (9, reply request 40) ∷ [])
unfolding notifies
handle_selection_request_lem_example =
    handle_selection_request_lem outside accepts request hello none 106 idle_state

abbrev arriving : List Poll
arriving = deliver 1 40001 (selection_request request) ∷ deliver 2 40002 selection_notify ∷ []

wait_loop_lem_example :
    Waited
      (has_type any_selection_notify)
      arriving
      idle_state
      (wait_loop (has_type any_selection_notify) 2000 arriving idle_state)
wait_loop_lem_example = wait_loop_lem (has_type any_selection_notify) 2000 arriving idle_state

-- The owner announces a chunk and an empty one.
abbrev announced : Event
announced = property_notify (record { window = 7; atom = 104; time = 6; state = new_value })

abbrev receiving : ClipboardState
receiving = record idle_state {
  display = record display { polls = deliver 1 40001 announced ∷ deliver 2 40002 announced ∷ [] };
}

abbrev chunks : List Bytes
chunks = (b'a' ∷ b'b' ∷ []) ∷ []

abbrev first_event : ClipboardState
first_event = (await 104 (handshaken 104 receiving)).1

abbrev first_chunk : ClipboardState
first_chunk = (read_chunk_property outside 104 first_event).1

abbrev second_event : ClipboardState
second_event = (await 104 first_chunk).1

abbrev received : ClipboardState
received = (read_chunk_property outside 104 second_event).1

-- A request was deferred; an acknowledgement, a change of owner and a request follow.
abbrev waiting : ClipboardState
waiting = record busy {
  display = record busy.display {
    polls =
        deliver 1 20000
          (property_notify (record { window = 9; atom = 40; time = 7; state = deleted }))
        ∷ deliver 2 20001 (set_selection_owner_notify 100 8)
        ∷ deliver 3 20002 (selection_request request)
        ∷ idle 4 20003 false
        ∷ [];
    wall = 20000;
  };
  deferred_events = selection_request request ∷ [];
}

process_pending_events_lem_example : Pended waiting (process_pending_events outside waiting)
unfolding subscribed count_first get
process_pending_events_lem_example =
    process_pending_events_lem outside accepts waiting
      (record {
        nodup = (refl, tt);
        keyed = (refl, refl, tt);
        tracked = record { tracks = busy-IsTracked.tracks };
      })
      tt

-- The acknowledgement of a transfer is taken for the answer of the server.
get_server_timestamp-property_notify_example :
    get_server_timestamp outside (
      with_polls
        (deliver 1 20000
            (property_notify (record { window = 9; atom = 40; time = 7; state = deleted }))
          ∷ [])
        busy)
    ≡ (
      ok (some 7),
      polled 1 20000 [] (asked flush (asked (change_property 7 105 19 32 (0 ∷ [])) busy)),
    )
get_server_timestamp-property_notify_example =
    get_server_timestamp-property_notify outside accepts 1 20000
      (record { window = 9; atom = 40; time = 7; state = deleted }) [] busy
