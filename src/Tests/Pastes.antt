-- ===== src/Tests/Pastes.antt =====
-- A transfer that pastes what was copied on the other side, at concrete values.
use pclipsync.Base.{
  sym, ap, ◌∙◌, Option, none, some, false, some, ◌≡◌, ◌≢◌, refl, true, false, List, [], ◌∷◌, arith,
}
use pclipsync.Base.Dict.{count_first}
use pclipsync.HashState.{fresh}
use pclipsync.Protocol.{closed, encode_netstring}
use pclipsync.X11.{deliver, property_notify, new_value, deleted, selection_request, Outside, Poll}
use pclipsync.State.{ClipboardState}
use pclipsync.Wait.{any_selection_notify, wait_for_event_type}
use pclipsync.Incr.{new_transfer}
use pclipsync.Incr.Cleanup.{IsWellFormed}
use pclipsync.Incr.Subscribe.{subscribed}
use pclipsync.Selection.{process_pending_events}
use pclipsync.Selection.Progress.Ends.{HasEnded}
use pclipsync.Sync.{handle_clipboard_change}
use pclipsync.Sync.Silent.{network}
use pclipsync.SyncLoop.{Session, round, handle_event}
use pclipsync.SyncLoop.Rounds.{read_wake, with_bytes}
use pclipsync.SyncLoop.Copied.{copied-IsSent}
use pclipsync.Delivery.Large.{copy_paste-HasEnded}
use pclipsync.Tests.Samples.{session, outside, accepts, idle_state, request}
use pclipsync.Base.Dict.{get}
use pclipsync.X11.{other_event, idle}
use pclipsync.Incr.{is_stale}
use pclipsync.State.{IncrSendState, Accepts}
use pclipsync.SyncLoop.Spares.{other}
use pclipsync.SyncLoop.Looks.{Looks, done, look, event}
use pclipsync.Tests.Copies.{ab, announced, answers, left_copy}

-- An X server that takes no property of more than 0 bytes.
abbrev narrow : Outside
narrow = record outside { max_request_length = 0 }

abbrev narrow_takes : Accepts narrow
narrow_takes = record { takes = λ h r. refl }

abbrev acknowledged : Poll
acknowledged =
    deliver 2 40002 (property_notify (record { window = 9; atom = 40; time = 2; state = deleted }))

-- The answer to the change of its own property, and the acknowledgements of a transfer.
abbrev requested : Session
requested = record session {
  state = record idle_state {
    display = record idle_state.display {
      polls =
          deliver 1 40001
            (property_notify (record { window = 7; atom = 105; time = 1; state = new_value }))
          ∷ acknowledged
          ∷ acknowledged
          ∷ idle 3 40003 false
          ∷ acknowledged
          ∷ [];
    };
  };
}

requested-IsWellFormed : IsWellFormed requested.state
unfolding subscribed count_first
requested-IsWellFormed = record { nodup = tt; keyed = tt; tracked = record { tracks = λ w. refl } }

-- A request for the content that has arrived, and then two looks at the events, with an event
-- between them.
abbrev asked_for : ClipboardState
asked_for =
    (handle_event narrow (selection_request request)
      (round narrow read_wake (with_bytes (encode_netstring ab) closed requested)).1.state).1

abbrev looked_once : ClipboardState
looked_once = (process_pending_events narrow asked_for).1

abbrev between : ClipboardState
between = (handle_event narrow other_event looked_once).1

-- The transfer that is listed is not stale.
young :
    (s : ClipboardState) (listed st : IncrSendState)
    → get (9, 40) s.pending_incr_sends ≡ some listed
    → is_stale s.display.wall (9, 40) listed ≡ false
    → get (9, 40) s.pending_incr_sends ≡ some st
    → is_stale s.display.wall (9, 40) st ≡ false
young s listed st here fresh found =
    ap
      (λ (o : Option IncrSendState). elim o [
        | none ↦ false
        | some x ↦ is_stale s.display.wall (9, 40) x
      ])
      (sym found ∙ here)
    ∙ fresh

looks : Looks narrow 9 40 asked_for 3 (process_pending_events narrow between).1
unfolding pclipsync.Incr.needs_incr_transfer round pclipsync.Protocol.read_netstring
    encode_netstring pclipsync.Sync.handle_incoming_content pclipsync.Wait.get_server_timestamp
    pclipsync.Protocol.decimal pclipsync.Protocol.is_digit pclipsync.Protocol.value
    pclipsync.Protocol.is_goodbye pclipsync.Sync.set_clipboard_content pclipsync.Sync.add
    pclipsync.Base.contains pclipsync.Wait.wait_loop pclipsync.Wait.has_type handle_event
    process_pending_events get pclipsync.Selection.handle_selection_request
    pclipsync.Selection.answer_content pclipsync.Selection.handle_content_request
    pclipsync.Incr.initiate_incr_send pclipsync.Base.Dict.put
    pclipsync.Incr.cleanup_stale_incr_sends pclipsync.Incr.is_incr_send_event
    pclipsync.Incr.handle_incr_send_event pclipsync.Incr.send_incr_chunk pclipsync.Incr.write_chunk
looks =
    look {s = asked_for} (λ st. young asked_for (new_transfer request ab 40001) st refl refl)
      (refl, (refl, tt))
      (event {s = looked_once} other_event refl other (
        look {s = between}
          (λ st.
            young between
              (record (new_transfer request ab 40001) { offset = 2; completion_sent = true }) st
              refl refl)
          (refl, tt) done refl))
      refl

copy_paste-HasEnded_example :
    let t = (round narrow read_wake (with_bytes (encode_netstring ab) closed requested)).1.state in
    let u = (handle_event narrow (selection_request request) t).1 in
    HasEnded (new_transfer request ab t.display.wall) u (process_pending_events narrow between).1
unfolding network pclipsync.Incr.needs_incr_transfer round pclipsync.Protocol.read_netstring
    encode_netstring pclipsync.Sync.handle_incoming_content pclipsync.Wait.get_server_timestamp
    pclipsync.Protocol.decimal pclipsync.Protocol.is_digit pclipsync.Protocol.value
    pclipsync.Protocol.is_goodbye pclipsync.Sync.set_clipboard_content pclipsync.Sync.add
    pclipsync.Base.contains pclipsync.Wait.wait_loop pclipsync.Wait.has_type
copy_paste-HasEnded_example =
    copy_paste-HasEnded narrow narrow_takes request ab refl refl refl outside accepts answers 100 9
      announced (encode_netstring ab) closed requested 3 (process_pending_events narrow between).1
      left_copy (copied-IsSent outside accepts answers 100 9 ab announced left_copy).wrote
      requested-IsWellFormed looks (omega arith)
