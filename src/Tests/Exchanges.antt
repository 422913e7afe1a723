-- ===== src/Tests/Exchanges.antt =====
-- A copy on each side, one after the other, at concrete values.
use pclipsync.Base.{◌≡◌, refl, [], ◌∷◌, arith}
use pclipsync.Base.Dict.{count_first}
use pclipsync.Protocol.{closed, encode_netstring}
use pclipsync.X11.{buffer, deliver, selection_notify}
use pclipsync.Wait.{any_selection_notify, wait_for_event_type}
use pclipsync.Incr.Subscribe.{subscribed}
use pclipsync.Sync.Readable.{whole}
use pclipsync.SyncLoop.{Session, lose_ownership}
use pclipsync.SyncLoop.Copied.{Copies, copied-IsSent}
use pclipsync.Delivery.Exchange.{copies, reads, done, left_copies, right_copies, Exchange-latest}
use pclipsync.Tests.Samples.{session, outside, accepts, idle_state}
use pclipsync.Tests.Copies.{
  ab, announced, answers, notified, taken, asked_owner, left_copy, cd, foreign, foreign_takes,
  foreign_answers,
}

abbrev left : Session
left = record session { state = announced }

abbrev right : Session
right = record session {
  state = record idle_state {
    window = 8;
    display = record idle_state.display { polls = deliver 1 40001 selection_notify ∷ [] };
  };
}

-- The right side has read the copy of the left one.
abbrev told : Session
told = reads foreign (encode_netstring ab) closed right

right_copy : Copies foreign foreign_answers 100 9 cd told.state
unfolding pclipsync.SyncLoop.round pclipsync.Protocol.read_netstring encode_netstring
    pclipsync.Protocol.decimal pclipsync.Protocol.is_digit pclipsync.Protocol.value
    pclipsync.Protocol.is_goodbye pclipsync.Sync.handle_incoming_content
    pclipsync.Sync.set_clipboard_content lose_ownership
    pclipsync.Incr.cleanup_incr_sends_on_ownership_loss wait_for_event_type pclipsync.Wait.wait_loop
    pclipsync.Wait.has_type subscribed count_first
right_copy = record {
  well_formed = record { nodup = tt; keyed = tt; tracked = record { tracks = λ w. refl } };
  is_other = refl;
  still_other = refl;
  readable = record {
    owner = 9;
    event = selection_notify;
    notified = notified foreign (asked_owner (lose_ownership foreign 100 told.state).1);
    read = taken foreign (asked_owner (lose_ownership foreign 100 told.state).1);
    has_owner = refl;
    is_owner = refl;
    notifies = refl;
    holds = whole (buffer 31 cd) refl refl refl refl;
  };
  later = tt;
  message = (cc, omega arith);
}

abbrev left_end : Session
left_end = reads outside (encode_netstring cd) closed (copies outside 100 9 left)

abbrev right_end : Session
right_end = copies foreign 100 9 told

Exchange-latest_example :
    (left_end.state.current_content ≡ cd) × (right_end.state.current_content ≡ cd)
unfolding right_copy
Exchange-latest_example =
    Exchange-latest outside accepts answers foreign foreign_takes foreign_answers [] {l = left}
      {r = right} refl refl
      (left_copies 100 9 (encode_netstring ab) closed left_copy
        (copied-IsSent outside accepts answers 100 9 ab announced left_copy).wrote
        (right_copies 100 9 (encode_netstring cd) closed right_copy
          (copied-IsSent foreign foreign_takes foreign_answers 100 9 cd told.state right_copy).wrote
          done))
