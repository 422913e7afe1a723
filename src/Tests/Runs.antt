-- ===== src/Tests/Runs.antt =====
-- Whole runs of the loop of sync_loop.py at concrete values, and what the other side reads of them.
use pclipsync.Base.{◌≡◌, refl, true, false, List, [], ◌∷◌, arith}
use pclipsync.Protocol.{closed}
use pclipsync.X11.{set_selection_owner_notify, selection_notify, deliver, idle}
use pclipsync.SyncLoop.{Session, Wake, run_sync_loop, sync_loop_inner}
use pclipsync.Sync.Silent.{network}
use pclipsync.SyncLoop.Rounds.{read_wake, with_bytes}
use pclipsync.SyncLoop.Conversation.{written, IsConversation}
use pclipsync.SyncLoop.Conversation.Runs.{run_sync_loop-IsConversation}
use pclipsync.SyncLoop.Inbox.{inbox_loop}
use pclipsync.SyncLoop.Inbox.Reads.{as_result, sync_loop_inner-inbox_loop}
use pclipsync.Delivery.Runs.{sent_contents, run_sync_loop-Delivered}
use pclipsync.Tests.Samples.{outside, idle_state, session, hello}

-- Another application has taken the clipboard, and then the user stops the program.
abbrev copying : Session
copying = record session {
  state = record idle_state {
    window = 8;
    deferred_events = set_selection_owner_notify 100 9 ∷ [];
    display = record idle_state.display {
      polls = idle 1 40001 false ∷ deliver 2 40002 selection_notify ∷ [];
    };
  };
}

abbrev copy_and_stop : List Wake
copy_and_stop =
    record { x11_task = true; read_task = false; shutdown_task = false }
    ∷ record { x11_task = false; read_task = false; shutdown_task = true }
    ∷ []

-- A round in which X11 events and a message arrive, and one for the next message.
abbrev two_reads : List Wake
two_reads = record { x11_task = true; read_task = true; shutdown_task = false } ∷ read_wake ∷ []

sent_by_copying : sent_contents outside copy_and_stop copying ≡ (b'a' ∷ b'b' ∷ []) ∷ [] ∷ []
unfolding sent_contents written network run_sync_loop pclipsync.SyncLoop.process_x11_events
    pclipsync.Selection.process_pending_events pclipsync.Incr.cleanup_stale_incr_sends
    pclipsync.Incr.cleanup_incr_sends_on_ownership_loss pclipsync.Sync.handle_clipboard_change
    pclipsync.ClipboardIo.read_clipboard_content pclipsync.Wait.wait_for_event_type
    pclipsync.Wait.wait_loop pclipsync.Wait.has_type pclipsync.Sync.content_changed
    pclipsync.Protocol.validate_content_size pclipsync.Sync.mirror
    pclipsync.Sync.set_clipboard_content pclipsync.Sync.send_if_new pclipsync.HashState.should_send
    pclipsync.HashState.clear_sent_hash pclipsync.HashState.clear_received_hash
    pclipsync.SyncLoop.send_goodbye pclipsync.Protocol.encode_netstring pclipsync.Protocol.decimal
    pclipsync.Protocol.read_netstring pclipsync.Protocol.is_digit pclipsync.Protocol.value
sent_by_copying = refl

run_sync_loop-IsConversation_example :
    IsConversation []
      (let (r, t) = run_sync_loop outside copy_and_stop copying in (r, t.state.display))
unfolding written network
run_sync_loop-IsConversation_example = run_sync_loop-IsConversation outside copy_and_stop copying

sync_loop_inner-inbox_loop_example :
    sync_loop_inner outside two_reads
      (with_bytes (b'2' ∷ b':' ∷ b'h' ∷ b'i' ∷ b',' ∷ b'0' ∷ b':' ∷ b',' ∷ []) closed session)
    ≡ as_result outside [] closed session
        (inbox_loop outside two_reads (record { state = idle_state; contents = hello ∷ [] ∷ [] }))
unfolding pclipsync.Protocol.encode_netstring pclipsync.Protocol.decimal
sync_loop_inner-inbox_loop_example =
    sync_loop_inner-inbox_loop outside [] closed session two_reads
      (record { state = idle_state; contents = hello ∷ [] ∷ [] }) (omega arith, (omega arith, tt))
      (omega arith)

run_sync_loop-Delivered_example :
    sync_loop_inner outside two_reads (
      with_bytes
        (written (network (run_sync_loop outside copy_and_stop copying).1.state.display.history))
        closed
        session)
    ≡ as_result outside [] closed session (
        inbox_loop outside two_reads
          (record { state = idle_state; contents = sent_contents outside copy_and_stop copying }))
run_sync_loop-Delivered_example =
    run_sync_loop-Delivered outside copy_and_stop copying (unfold network in refl) outside closed
      two_reads session (rw sent_by_copying (omega arith))
