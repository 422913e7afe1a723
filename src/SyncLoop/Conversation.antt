-- ===== src/SyncLoop/Conversation.antt =====
-- What a run of sync_loop.py writes to the socket: messages, and at its end a goodbye.
pub mod Runs
use pclipsync.Base.{
  ◌≡◌, ◌≢◌, refl, sym, ap, ◌∙◌, ◌⊎◌, inl, inr, Bool, true, false, List, [], ◌∷◌, ◌++◌, append-nil,
  append_assoc, All, All-append, arith,
}
use pclipsync.Exec.{Result, ok, raise, pure, continue, ◌>>=◌}
use pclipsync.Protocol.{encode_netstring, goodbye_message}
use pclipsync.X11.{
  Display, Bytes, Atom, Event, selection_request, set_selection_owner_notify, Outside,
}
use pclipsync.State.{ClipboardState, Io}
use pclipsync.State.Keeps.{Keeps, Keeps-pure, Keeps-answer, Keeps-if, Keeps-bind}
use pclipsync.Sync.{handle_clipboard_change, handle_incoming_content}
use pclipsync.Sync.Silent.{network}
use pclipsync.Sync.Echo.{SentAtMostOne, handle_clipboard_change-sends}
use pclipsync.Sync.Incoming.{handle_incoming_content-records}
use pclipsync.SyncLoop.{
  lose_ownership, handle_event, handle_events, process_x11_events, send_goodbye, Session, Wake,
  Outcome, stay, leave, read_round, shutdown_round, round, sync_loop_inner, remove_reader,
  run_sync_loop,
}
use pclipsync.SyncLoop.Rounds.{messages, IsMessage}
use pclipsync.SyncLoop.Keeps.{Handled, x11_round-Keeps, read_round-Keeps}
use pclipsync.SyncLoop.Unsent.{
  IsUnsent, selection_request-IsUnsent, pending_events-IsUnsent, lose_ownership-IsUnsent,
}

-- The bytes written to the socket, the first one first.
unfoldable pub written : List Bytes → Bytes
written [] = []
written (bytes ∷ n) = written n ++ bytes

-- Behind the bytes `b`, messages and nothing else.
pub record IsWire (b : Bytes) (s : ClipboardState) : Type 0 where
  pub contents : List Bytes
  pub each : All IsMessage contents
  pub wrote : written (network s.display.history) ≡ b ++ messages contents []

-- Behind the bytes `b`, messages and perhaps a goodbye, which only a run that has ended writes.
pub record IsConversation (b : Bytes) (r : Result Outcome × Display) : Type 0 where
  pub contents : List Bytes
  pub rest : Bytes
  pub each : All IsMessage contents
  pub wrote : written (network r.1.history) ≡ b ++ messages contents rest
  pub ended : (rest ≡ []) ⊎ ((rest ≡ goodbye_message) × (r.0 ≢ ok stay))

messages-append :
    (cs : List Bytes) (rest more : Bytes) → messages cs rest ++ more ≡ messages cs (rest ++ more)
messages-append [] rest more = refl
messages-append (c ∷ cs) rest more =
    append_assoc (encode_netstring c) (messages cs rest) more
    ∙ ap (λ m. encode_netstring c ++ m) (messages-append cs rest more)

pub messages-++ :
    (cs ds : List Bytes) (rest : Bytes) → messages (cs ++ ds) rest ≡ messages cs (messages ds rest)
messages-++ [] ds rest = refl
messages-++ (c ∷ cs) ds rest = ap (λ m. encode_netstring c ++ m) (messages-++ cs ds rest)

module _ (O : Outside) (b : Bytes) where
  unsent-Keeps :
      {A : Type 0} (m : Io A) → ((n : List Bytes) → Keeps (IsUnsent n) m) → Keeps (IsWire b) m
  unsent-Keeps m k = record {
    at = λ s p. record {
      contents = p.contents;
      each = p.each;
      wrote =
          ap written ((k (network s.display.history)).at s (record { sent = refl })).sent ∙ p.wrote;
    };
  }

  -- More bytes behind messages.
  pub behind :
      (more : Bytes) (n : List Bytes) (s : ClipboardState) (p : IsWire b s)
      → n ≡ more ∷ network s.display.history
      → written n ≡ b ++ messages p.contents more
  unfolding written
  behind more n s p e =
      ap written e
      ∙ ap (λ m. m ++ more) p.wrote
      ∙ append_assoc b (messages p.contents []) more
      ∙ ap (λ m. b ++ m) (messages-append p.contents [] more)

  change-Keeps : (a : Atom) → Keeps (IsWire b) (handle_clipboard_change O a)
  change-Keeps a = record { at = λ s p. go s p (handle_clipboard_change-sends O a s) }
    where
      go :
          (s : ClipboardState)
          → IsWire b s
          → SentAtMostOne O
              (network s.display.history)
              s.hash_state
              (handle_clipboard_change O a s).1
          → IsWire b (handle_clipboard_change O a s).1
      go s p (inl same) = record {
        contents = p.contents;
        each = p.each;
        wrote = ap written same ∙ p.wrote;
      }
      go s p (inr (c, one, ne, fits, new)) = record {
        contents = p.contents ++ c ∷ [];
        each = All-append IsMessage p.contents (c ∷ []) p.each ((ne, fits), tt);
        wrote =
            behind (encode_netstring c) _ s p one
            ∙ ap (λ m. b ++ m)
                (ap (λ m. messages p.contents m) (sym (append-nil (encode_netstring c)))
                  ∙ sym (messages-++ p.contents (c ∷ []) []));
      }

  incoming-Keeps : (c : Bytes) → Keeps (IsWire b) (handle_incoming_content O c)
  incoming-Keeps c = record {
    at = λ s p. record {
      contents = p.contents;
      each = p.each;
      wrote = ap written (handle_incoming_content-records O c s).sent ∙ p.wrote;
    };
  }

  event-Keeps : (e : Event) → Keeps (IsWire b) (handle_event O e)
  unfolding handle_event
  event-Keeps (selection_request e) =
      Keeps-bind _ _ (Keeps-answer (λ s. ok s.current_content)) λ content.
        Keeps-bind _ _ (Keeps-answer (λ s. ok s.acquisition_time)) λ time.
          Keeps-bind _ _ (Keeps-answer (λ s. ok s.incr_atom))
            λ incr_atom. unsent-Keeps _ λ n. selection_request-IsUnsent O n e content time incr_atom
  event-Keeps (set_selection_owner_notify a owner) =
      Keeps-bind _ _ (Keeps-answer (λ s. ok s.window)) λ window.
        Keeps-bind _ _
          (Keeps-if _ _ _ (Keeps-pure tt)
            (unsent-Keeps (lose_ownership O a) λ n. lose_ownership-IsUnsent O n a))
          λ _. change-Keeps a
  event-Keeps _ = Keeps-pure tt

  events-Keeps : (events : List Event) → Keeps (IsWire b) (handle_events O events)
  unfolding handle_events
  events-Keeps [] = Keeps-pure tt
  events-Keeps (e ∷ events) = Keeps-bind _ _ (event-Keeps e) λ _. events-Keeps events

  x11-Keeps : Keeps (IsWire b) (process_x11_events O)
  unfolding process_x11_events
  x11-Keeps =
      Keeps-bind _ _ (unsent-Keeps _ λ n. pending_events-IsUnsent O n) λ events. events-Keeps events

  -- A round up to its shutdown writes messages and nothing else.
  pub handled : Handled O (IsWire b)
  handled = record {
    at_x11 = x11-Keeps;
    at_incoming = incoming-Keeps;
    at_clear = record {
      at = λ s p. record { contents = p.contents; each = p.each; wrote = p.wrote };
    };
  }
