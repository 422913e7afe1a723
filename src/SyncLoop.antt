-- ===== src/SyncLoop.antt =====
-- src/pclipsync/sync_loop_inner.py and sync_loop.py: the event loop of one connection. Which tasks
-- `asyncio.wait` finds done, round after round, is a schedule; when it is used up the loop waits.
pub mod Rounds
pub mod Keeps
pub mod WellFormed
pub mod Served
pub mod Copied
pub mod Owned
pub mod Own
pub mod Spares
pub mod Looks
pub mod Unsent
pub mod Conversation
pub mod Inbox
use pclipsync.Base.{
  ℕ, Bool, true, false, not, Option, none, some, List, [], ◌∷◌, ◌++◌, ◌==◌, if◌then◌else◌,
}
use pclipsync.Exec.{
  Exn, is_os_error, Result, ok, raise, Exec, pure, throw, gets, modify, catch, recover, continue,
  ◌>>=◌, ◌>>◌,
}
use pclipsync.HashState.{HashState, clear_received_hash, clear_sent_hash}
use pclipsync.Protocol.{Stream, read_netstring, is_goodbye, goodbye_message}
use pclipsync.X11.{
  Bytes, Atom, WindowId, Event, selection_request, set_selection_owner_notify, Request, write,
  drain, Outside,
}
use pclipsync.State.{ClipboardState, Io, perform}
use pclipsync.Incr.{cleanup_incr_sends_on_ownership_loss}
use pclipsync.Selection.{handle_selection_request, process_pending_events}
use pclipsync.Sync.{discard, handle_clipboard_change, handle_incoming_content}

module _ (O : Outside) where
  -- Another application has taken the selection.
  unfoldable pub lose_ownership : Atom → Io (Unit {0})
  lose_ownership selection = do
    modify (λ s. record s { owned_selections = discard selection s.owned_selections })
    cleanup_incr_sends_on_ownership_loss O selection
    modify (λ s. record s { hash_state = clear_sent_hash (clear_received_hash s.hash_state) })
    modify (λ s. record s {
      acquisition_time = elim s.owned_selections [ [] ↦ none | _ ∷ _ ↦ s.acquisition_time ];
    })

  unfoldable pub handle_event : Event → Io (Unit {0})
  unfolding lose_ownership
  handle_event (selection_request e) = do
    content ← gets (λ s. s.current_content)
    acquisition_time ← gets (λ s. s.acquisition_time)
    incr_atom ← gets (λ s. s.incr_atom)
    handle_selection_request O e content acquisition_time incr_atom
  handle_event (set_selection_owner_notify selection owner) = do
    window ← gets (λ s. s.window)
    if owner == window then pure tt else lose_ownership selection
    handle_clipboard_change O selection
  handle_event _ = pure tt

  unfoldable pub handle_events : List Event → Io (Unit {0})
  unfolding handle_event
  handle_events [] = pure tt
  handle_events (e ∷ events) = do handle_event e; handle_events events

  unfoldable pub process_x11_events : Io (Unit {0})
  unfolding handle_events
  process_x11_events = do events ← process_pending_events O; handle_events events

  -- protocol.py: errors are ignored, since the connection may be dead.
  unfoldable pub send_goodbye : Io (Unit {0})
  send_goodbye =
      catch (do perform O (write goodbye_message); perform O drain)
        (λ x. if is_os_error x then pure tt else throw x)

-- The state and the bytes that the remote side sends.
pub record Session : Type 0 where
  pub state : ClipboardState
  pub reader : Stream
  -- whether the event loop watches the X11 connection
  pub watching : Bool

-- The tasks that are done in one round.
pub record Wake : Type 0 where
  pub x11_task : Bool
  pub read_task : Bool
  pub shutdown_task : Bool

-- `leave` is a return of the loop.
pub data Outcome : Type 0 where
  stay leave : Outcome

abbrev pub on_state : {A : Type 0} → Io A → Exec Session A
on_state m s = let (r, t) = m s.state in (r, record s { state = t })

abbrev pub on_reader : {A : Type 0} → Exec Stream A → Exec Session A
on_reader m s = let (r, t) = m s.reader in (r, record s { reader = t })

module _ (O : Outside) where
  unfoldable pub x11_round : Bool → Exec Session (Unit {0})
  x11_round false = pure tt
  x11_round true = on_state (do modify (λ s. record s { x11_event = false }); process_x11_events O)

  unfoldable pub deliver : Bytes → Exec Session Outcome
  deliver content =
      if is_goodbye content
      then pure leave
      else (do on_state (handle_incoming_content O content); pure stay)

  unfoldable pub read_round : Bool → Exec Session Outcome
  unfolding deliver
  read_round false = pure stay
  read_round true = do content ← on_reader read_netstring; deliver content

  unfoldable pub shutdown_round : Bool → Outcome → Exec Session Outcome
  shutdown_round shutdown leave = pure leave
  shutdown_round false stay = pure stay
  shutdown_round true stay = do on_state (send_goodbye O); pure leave

  unfoldable pub round : Wake → Exec Session Outcome
  unfolding x11_round read_round shutdown_round
  round w = do
    x11_round w.x11_task
    outcome ← read_round w.read_task
    shutdown_round w.shutdown_task outcome

  unfoldable pub sync_loop_inner : List Wake → Exec Session Outcome
  unfolding round
  sync_loop_inner [] = pure stay
  sync_loop_inner (w ∷ wakes) = do
    outcome ← round w
    elim outcome [ leave ↦ pure leave | stay ↦ sync_loop_inner wakes ]

  -- `finally: loop.remove_reader(display_fd)`, once the inner loop has ended.
  unfoldable pub remove_reader : Result Outcome × Session → Result Outcome × Session
  remove_reader (ok stay, s) = (ok stay, s)
  remove_reader (ok leave, s) = (ok leave, record s { watching = false })
  remove_reader (raise x, s) = (raise x, record s { watching = false })

  unfoldable pub run_sync_loop : List Wake → Exec Session Outcome
  unfolding sync_loop_inner remove_reader
  run_sync_loop wakes s = remove_reader (sync_loop_inner wakes (record s { watching = true }))
