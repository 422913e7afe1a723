-- ===== src/Tests/Clipboard.antt =====
-- Local changes and incoming content at concrete values: sync_handlers.py and the options.
use pclipsync.Base.{◌≡◌, refl, true, List, [], ◌∷◌}
use pclipsync.Exec.{ok}
use pclipsync.HashState.{fresh, record_received}
use pclipsync.X11.{deliver, selection_notify}
use pclipsync.Protocol.{closed, encode_netstring}
use pclipsync.State.{ClipboardState}
use pclipsync.Wait.{any_selection_notify, wait_for_event_type}
use pclipsync.ClipboardIo.{clipboard_timeout}
use pclipsync.Sync.{handle_clipboard_change, handle_incoming_content}
use pclipsync.Sync.Silent.{network}
use pclipsync.Sync.Echo.{SentAtMostOne, handle_clipboard_change-sends}
use pclipsync.X11.{Outside, buffer, set_selection_owner_notify}
use pclipsync.Base.{some}
use pclipsync.SyncLoop.{handle_event, handle_events}
use pclipsync.SyncLoop.Own.{own_events, Unechoed, no_echo}
use pclipsync.Cli.{OptionName, server, socket, select_mode}
use pclipsync.Tests.Samples.{outside, idle_state, hello}

-- Another application owns the clipboard and has answered.
abbrev announced : ClipboardState
announced = record idle_state {
  window = 8;
  display = record idle_state.display { polls = deliver 1 40001 selection_notify ∷ [] };
}

handle_clipboard_change-sends_example :
    SentAtMostOne outside [] fresh (handle_clipboard_change outside 100 announced).1
unfolding network
handle_clipboard_change-sends_example = handle_clipboard_change-sends outside 100 announced

-- An X server on which another application keeps the selections, with the content that arrives.
abbrev echoing : Outside
echoing = record outside {
  selection_owner = λ h a. ok 9;
  full_property = λ h w a. ok (some (buffer 31 hello));
}

-- The owner answers once.
abbrev asking : ClipboardState
asking = record idle_state {
  display = record idle_state.display { polls = deliver 1 40001 selection_notify ∷ [] };
}

abbrev arrived : ClipboardState
arrived = (handle_incoming_content echoing hello asking).1

no_echo_example :
    Unechoed hello
      (network arrived.display.history)
      (handle_events echoing (own_events arrived.window (100 ∷ 1 ∷ [])) arrived).1
no_echo_example = no_echo echoing hello asking (100 ∷ 1 ∷ [])

-- The owner's content is read, and it would be sent if its hash were not known.
unknown_is_sent :
    network
      (handle_event echoing
        (set_selection_owner_notify 100 7)
        (record arrived { hash_state = fresh })).1.display.history
    ≡ encode_netstring hello ∷ []
unfolding network handle_event handle_incoming_content pclipsync.Sync.set_clipboard_content
    handle_clipboard_change pclipsync.ClipboardIo.read_clipboard_content wait_for_event_type
    pclipsync.Wait.wait_loop pclipsync.Wait.has_type pclipsync.Sync.content_changed
    pclipsync.Protocol.validate_content_size pclipsync.Sync.mirror pclipsync.Sync.send_if_new
    pclipsync.HashState.should_send
unknown_is_sent = refl

abbrev options : List OptionName
options = socket ∷ server ∷ []

selects_server : select_mode options ≡ ok true
unfolding select_mode
selects_server = refl

sends_clipboard :
    network (handle_clipboard_change outside 100 announced).1.display.history
    ≡ encode_netstring (b'a' ∷ b'b' ∷ []) ∷ []
unfolding network handle_clipboard_change pclipsync.ClipboardIo.read_clipboard_content
    pclipsync.Wait.wait_for_event_type pclipsync.Wait.wait_loop pclipsync.Wait.has_type
    pclipsync.Sync.content_changed pclipsync.Protocol.validate_content_size pclipsync.Sync.mirror
    pclipsync.Sync.set_clipboard_content pclipsync.Sync.send_if_new pclipsync.HashState.should_send
sends_clipboard = refl
