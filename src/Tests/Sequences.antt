-- ===== src/Tests/Sequences.antt =====
-- Two copies in a row, read by the other side, at concrete values.
use pclipsync.Base.{some, refl, List, [], ◌∷◌, arith}
use pclipsync.Base.Dict.{count_first}
use pclipsync.Exec.{ok}
use pclipsync.HashState.{fresh}
use pclipsync.Protocol.{closed, encode_netstring}
use pclipsync.X11.{
  set_selection_owner_notify, Request, get_full_property, Bytes, deliver, selection_notify, buffer,
  Outside,
}
use pclipsync.State.{ClipboardState, Accepts}
use pclipsync.Wait.{any_selection_notify, wait_for_event_type}
use pclipsync.ClipboardIo.{clipboard_timeout}
use pclipsync.Incr.{new_transfer}
use pclipsync.Incr.Subscribe.{subscribed}
use pclipsync.Sync.{handle_clipboard_change}
use pclipsync.Sync.Silent.{network}
use pclipsync.Sync.Readable.{whole}
use pclipsync.Sync.Returns.{Answers}
use pclipsync.SyncLoop.{sync_loop_inner, lose_ownership, handle_event}
use pclipsync.SyncLoop.Rounds.{read_wakes, with_bytes}
use pclipsync.SyncLoop.WellFormed.{event-Keeps}
use pclipsync.SyncLoop.Copied.{Copies, copied}
use pclipsync.Delivery.Sequence.{done, copy, Converges, Copying-Converges}
use pclipsync.SyncLoop.Conversation.{written}
use pclipsync.Tests.Samples.{session, outside, accepts}
use pclipsync.Tests.Copies.{answers, ab, announced, notified, taken, asked_owner}

abbrev cd : Bytes
cd = b'c' ∷ b'd' ∷ []

abbrev held_after : List Request → Bytes
held_after [] = ab
held_after (get_full_property w a ∷ h) = cd
held_after (_ ∷ h) = held_after h

-- The first look at the property finds one content, the later ones another.
abbrev changing : Outside
changing = record outside { full_property = λ h w a. ok (some (buffer 31 (held_after h))) }

abbrev takes_all : Accepts changing
takes_all = record { takes = λ h r. refl }

abbrev still : Answers changing
still = record { owner = λ h a. 7; answers = λ h a. refl }

-- The owner answers twice.
abbrev announced_twice : ClipboardState
announced_twice = record announced {
  display = record announced.display {
    polls = deliver 1 40001 selection_notify ∷ deliver 2 40002 selection_notify ∷ [];
  };
}

first_copy : Copies changing still 100 9 ab announced_twice
unfolding pclipsync.Wait.wait_for_event_type pclipsync.Wait.wait_loop pclipsync.Wait.has_type
    lose_ownership pclipsync.Incr.cleanup_incr_sends_on_ownership_loss subscribed count_first
first_copy = record {
  well_formed = record { nodup = tt; keyed = tt; tracked = record { tracks = λ w. refl } };
  is_other = refl;
  still_other = refl;
  readable = record {
    owner = 7;
    event = selection_notify;
    notified = notified changing (asked_owner (lose_ownership changing 100 announced_twice).1);
    read = taken changing (asked_owner (lose_ownership changing 100 announced_twice).1);
    has_owner = refl;
    is_owner = refl;
    notifies = refl;
    holds = whole (buffer 31 ab) refl refl refl refl;
  };
  later = tt;
  message = (cc, omega arith);
}

abbrev copied_once : ClipboardState
copied_once = copied changing 100 9 announced_twice

second_copy : Copies changing still 100 9 cd copied_once
unfolding pclipsync.Wait.wait_for_event_type pclipsync.Wait.wait_loop pclipsync.Wait.has_type
    lose_ownership pclipsync.Incr.cleanup_incr_sends_on_ownership_loss subscribed count_first
    handle_event handle_clipboard_change pclipsync.ClipboardIo.read_clipboard_content
    pclipsync.Sync.content_changed pclipsync.Protocol.validate_content_size pclipsync.Sync.mirror
    pclipsync.Sync.set_clipboard_content pclipsync.Sync.send_if_new pclipsync.HashState.should_send
    pclipsync.HashState.clear_sent_hash pclipsync.HashState.clear_received_hash
second_copy = record {
  well_formed =
      (event-Keeps changing takes_all (set_selection_owner_notify 100 9)).at announced_twice
        first_copy.well_formed;
  is_other = refl;
  still_other = refl;
  readable = record {
    owner = 7;
    event = selection_notify;
    notified = notified changing (asked_owner (lose_ownership changing 100 copied_once).1);
    read = taken changing (asked_owner (lose_ownership changing 100 copied_once).1);
    has_owner = refl;
    is_owner = refl;
    notifies = refl;
    holds = whole (buffer 31 cd) refl refl refl refl;
  };
  later = tt;
  message = (cc, omega arith);
}

-- Two copies, one after the other, on a new connection.
Copying-Converges_example :
    Converges
      (sync_loop_inner outside (read_wakes (ab ∷ cd ∷ [])) (
        with_bytes
          (written (network (copied changing 100 9 copied_once).display.history))
          closed
          session))
      closed
      (copied changing 100 9 copied_once)
unfolding network
Copying-Converges_example =
    Copying-Converges changing takes_all still outside accepts answers announced_twice
      (copied changing 100 9 copied_once) (ab ∷ cd ∷ []) closed session refl refl
      (copy 100 9 first_copy (copy 100 9 second_copy done)) tt
