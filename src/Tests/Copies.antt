-- ===== src/Tests/Copies.antt =====
-- Copies on one side, and what becomes of them on the other, at concrete values.
use pclipsync.Base.{◌≡◌, refl, [], ◌∷◌, arith}
use pclipsync.Base.Dict.{count_first}
use pclipsync.HashState.{fresh}
use pclipsync.Protocol.{closed, encode_netstring}
use pclipsync.X11.{
  Bytes, deliver, selection_notify, buffer, get_selection_owner, delete_property, flush, Outside,
}
use pclipsync.State.{ClipboardState, asked}
use pclipsync.Wait.{any_selection_notify, wait_for_event_type}
use pclipsync.ClipboardIo.{clipboard_timeout}
use pclipsync.Incr.{new_transfer}
use pclipsync.Incr.Cleanup.{IsWellFormed}
use pclipsync.Incr.Subscribe.{subscribed}
use pclipsync.Sync.{handle_clipboard_change}
use pclipsync.Sync.Silent.{network}
use pclipsync.Sync.Readable.{Readable, whole, converted, looked}
use pclipsync.Sync.Returns.{Answers}
use pclipsync.Sync.Sent.{IsSent, handle_clipboard_change-IsSent}
use pclipsync.SyncLoop.{Session, round, lose_ownership}
use pclipsync.SyncLoop.Rounds.{read_wake, with_bytes}
use pclipsync.SyncLoop.Copied.{Copies, copied}
use pclipsync.Delivery.Pasted.{Pastes, copy_paste}
use pclipsync.Delivery.Agreement.{HasContent, Settled, overtaken, copied-Agrees, crossing-Settled}
use pclipsync.SyncLoop.Own.{IsQuiet, NeverEchoes}
use pclipsync.Exec.{ok}
use pclipsync.Base.{some}
use pclipsync.State.{Accepts}
use pclipsync.Tests.Samples.{session, outside, accepts, idle_state, request}

abbrev pub ab : Bytes
ab = b'a' ∷ b'b' ∷ []

abbrev pub cd : Bytes
cd = b'c' ∷ b'd' ∷ []

-- An X server on which another application keeps the selections, with another content.
abbrev pub foreign : Outside
foreign = record outside {
  selection_owner = λ h a. ok 9;
  full_property = λ h w a. ok (some (buffer 31 cd));
}

abbrev pub foreign_takes : Accepts foreign
foreign_takes = record { takes = λ h r. refl }

abbrev pub foreign_answers : Answers foreign
foreign_answers = record { owner = λ h a. 9; answers = λ h a. refl }

-- Another application owns the clipboard and has answered.
abbrev pub announced : ClipboardState
announced = record idle_state {
  window = 8;
  display = record idle_state.display { polls = deliver 1 40001 selection_notify ∷ [] };
}

abbrev pub answers : Answers outside
answers = record { owner = λ h a. 7; answers = λ h a. refl }

-- The state when the answer has come.
abbrev pub notified : Outside → ClipboardState → ClipboardState
notified O s = (wait_for_event_type any_selection_notify clipboard_timeout (converted O 100 s)).1

-- The state when the content is read.
abbrev pub taken : Outside → ClipboardState → ClipboardState
taken O s = asked flush (asked (delete_property 8 104) (looked O (notified O s)))

abbrev pub asked_owner : ClipboardState → ClipboardState
asked_owner s = asked (get_selection_owner 100) s

readable : Readable outside 100 ab (asked_owner announced)
unfolding pclipsync.Wait.wait_for_event_type pclipsync.Wait.wait_loop pclipsync.Wait.has_type
readable = record {
  owner = 7;
  event = selection_notify;
  notified = notified outside (asked_owner announced);
  read = taken outside (asked_owner announced);
  has_owner = refl;
  is_owner = refl;
  notifies = refl;
  holds = whole (buffer 31 ab) refl refl refl refl;
}

handle_clipboard_change-IsSent_example :
    IsSent outside ab [] fresh (handle_clipboard_change outside 100 announced).1
unfolding network pclipsync.Tests.Copies.readable
handle_clipboard_change-IsSent_example =
    handle_clipboard_change-IsSent outside accepts answers 100 ab announced refl readable tt (cc)
      (omega arith) (cc) (cc)

announced-IsWellFormed : IsWellFormed announced
unfolding subscribed count_first
announced-IsWellFormed = record { nodup = tt; keyed = tt; tracked = record { tracks = λ w. refl } }

-- The event tells that window 9 owns the clipboard now.
pub left_copy : Copies outside answers 100 9 ab announced
unfolding pclipsync.Wait.wait_for_event_type pclipsync.Wait.wait_loop pclipsync.Wait.has_type
    lose_ownership pclipsync.Incr.cleanup_incr_sends_on_ownership_loss
left_copy = record {
  well_formed = announced-IsWellFormed;
  is_other = refl;
  still_other = refl;
  readable = record {
    owner = 7;
    event = selection_notify;
    notified = notified outside (asked_owner (lose_ownership outside 100 announced).1);
    read = taken outside (asked_owner (lose_ownership outside 100 announced).1);
    has_owner = refl;
    is_owner = refl;
    notifies = refl;
    holds = whole (buffer 31 ab) refl refl refl refl;
  };
  later = tt;
  message = (cc, omega arith);
}

copy_paste_example :
    (wire : Bytes) × (network (copied outside 100 9 announced).display.history ≡ wire ∷ [])
    × Pastes outside request ab wire closed session
unfolding network
copy_paste_example =
    copy_paste outside accepts request refl refl outside accepts answers 100 9 ab announced closed
      session left_copy

copied-Agrees_example :
    let s' = copied outside 100 9 announced in
    let r' = (round outside read_wake (with_bytes (encode_netstring ab) closed session)).1 in
    HasContent ab s'
    × HasContent ab r'.state
    × IsQuiet outside ab s'
    × NeverEchoes outside ab r'.state
copied-Agrees_example =
    copied-Agrees outside accepts answers outside 100 9 ab announced closed session left_copy

-- The other side, on whose X server another content is copied.
foreign_copy : Copies foreign foreign_answers 100 9 cd announced
unfolding pclipsync.Wait.wait_for_event_type pclipsync.Wait.wait_loop pclipsync.Wait.has_type
    lose_ownership pclipsync.Incr.cleanup_incr_sends_on_ownership_loss
foreign_copy = record {
  well_formed = announced-IsWellFormed;
  is_other = refl;
  still_other = refl;
  readable = record {
    owner = 9;
    event = selection_notify;
    notified = notified foreign (asked_owner (lose_ownership foreign 100 announced).1);
    read = taken foreign (asked_owner (lose_ownership foreign 100 announced).1);
    has_owner = refl;
    is_owner = refl;
    notifies = refl;
    holds = whole (buffer 31 cd) refl refl refl refl;
  };
  later = tt;
  message = (cc, omega arith);
}

abbrev side : Session
side = record session { state = announced }

-- Each side copies a content of its own, and then reads the other one.
crossing-Settled_example :
    (network (copied outside 100 9 announced).display.history ≡ encode_netstring ab ∷ [])
    × (network (copied foreign 100 9 announced).display.history ≡ encode_netstring cd ∷ [])
    × Settled outside ab cd (overtaken outside 100 9 cd closed side)
    × Settled foreign cd ab (overtaken foreign 100 9 ab closed side)
unfolding network
crossing-Settled_example =
    crossing-Settled outside accepts answers foreign foreign_takes foreign_answers 100 100 9 9 ab cd
      closed closed side side left_copy foreign_copy
