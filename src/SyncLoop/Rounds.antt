-- ===== src/SyncLoop/Rounds.antt =====
-- Rounds of the loop of sync_loop_inner.py: messages of the remote side, the goodbye and the end.
use pclipsync.Base.{
  ◌≤◌, ◌≡◌, ◌≢◌, refl, sym, ap, ◌∙◌, true, false, List, [], ◌∷◌, ◌++◌, arith, length, All,
}
use pclipsync.Exec.{
  protocol_error, closed_in_length, Result, ok, raise, pure, continue, >>=-eq-ok, ◌>>◌,
}
use pclipsync.Protocol.{
  decimal, Bytes, Ending, closed, max_content_size, encode_netstring, read_netstring, is_goodbye,
  goodbye_message,
}
use pclipsync.Protocol.RoundTrip.{read_netstring-closed, read_netstring-encode_netstring}
use pclipsync.X11.{Outside}
use pclipsync.State.{ClipboardState, Io}
use pclipsync.Sync.{handle_incoming_content}
use pclipsync.SyncLoop.{Session, Wake, stay, leave, round, sync_loop_inner}

-- A round in which only the read task is done.
abbrev pub read_wake : Wake
read_wake = record { x11_task = false; read_task = true; shutdown_task = false }

abbrev pub read_wakes : List Bytes → List Wake
read_wakes [] = []
read_wakes (c ∷ cs) = read_wake ∷ read_wakes cs

-- The bytes of messages, one behind the other, before some rest.
abbrev pub messages : List Bytes → Bytes → Bytes
messages [] rest = rest
messages (c ∷ cs) rest = encode_netstring c ++ messages cs rest

abbrev pub IsMessage : Bytes → Type 0
IsMessage c = (c ≢ []) × (length c ≤ max_content_size)

-- The messages handled in order, with no loop and no stream.
unfoldable pub incoming : Outside → List Bytes → Io (Unit {0})
incoming O [] = pure tt
incoming O (c ∷ cs) = do handle_incoming_content O c; incoming O cs

goodbye_iff : (c : Bytes) → c ≢ [] → is_goodbye c ≡ false
unfolding is_goodbye
goodbye_iff [] h = absurd (h refl)
goodbye_iff (b ∷ bs) h = refl

abbrev pub with_bytes : Bytes → Ending → Session → Session
with_bytes bytes ending s = record s { reader = record { bytes = bytes; ending = ending } }

pub encode_netstring-nil : encode_netstring [] ≡ goodbye_message
unfolding encode_netstring decimal
encode_netstring-nil = refl

read_goodbye :
    (rest : Bytes) (ending : Ending)
    → read_netstring (record { bytes = goodbye_message ++ rest; ending = ending })
      ≡ (ok [], record { bytes = rest; ending = ending })
read_goodbye rest ending =
    ap (λ m. read_netstring (record { bytes = m ++ rest; ending = ending }))
      (sym encode_netstring-nil)
    ∙ read_netstring-encode_netstring [] rest ending (omega arith)

module _ (O : Outside) where
  pub round_message :
      (c rest : Bytes) (ending : Ending) (s : Session)
      → IsMessage c
      → round O read_wake (with_bytes (encode_netstring c ++ rest) ending s) ≡ (
          continue
            (handle_incoming_content O c s.state).0
            (λ _. pure stay)
            (record (with_bytes rest ending s) { state = (handle_incoming_content O c s.state).1 }))
  unfolding round
  round_message c rest ending s h =
      rw (read_netstring-encode_netstring c rest ending h.1, goodbye_iff c h.0) (ground arith)

  -- The messages are handled in order, and the loop goes on behind them.
  pub messages_then :
      (cs : List Bytes) (rest : Bytes) (ending : Ending) (wakes : List Wake) (s : Session)
      {t : ClipboardState}
      → All IsMessage cs
      → incoming O cs s.state ≡ (ok tt, t)
      → sync_loop_inner O (read_wakes cs ++ wakes) (with_bytes (messages cs rest) ending s)
        ≡ sync_loop_inner O wakes (record (with_bytes rest ending s) { state = t })
  unfolding sync_loop_inner incoming
  messages_then [] rest ending wakes s h e =
      ap
        (λ (t : ClipboardState).
          sync_loop_inner O wakes (record (with_bytes rest ending s) { state = t }))
        (ap (λ (r : Result (Unit {0}) × ClipboardState). r.1) e)
  messages_then (c ∷ cs) rest ending wakes s {t} h e =
      let (u, s', first, later) =
        >>=-eq-ok (handle_incoming_content O c) (λ _. incoming O cs) s.state e in
      rw (round_message c (messages cs rest) ending s h.0)
        (rw first (messages_then cs rest ending wakes (record s { state = s' }) {t = t} h.1 later))

  round_goodbye :
      (rest : Bytes) (ending : Ending) (s : Session)
      → round O read_wake (with_bytes (goodbye_message ++ rest) ending s)
        ≡ (ok leave, with_bytes rest ending s)
  unfolding round is_goodbye
  round_goodbye rest ending s = rw (read_goodbye rest ending) (ground arith)

  -- Rounds in which only the read task is done, over messages that are not empty and within the
  -- limit, whose handling raises nothing, and a goodbye behind them, end the loop with no error
  -- and with exactly the messages handled; what follows the goodbye stays unread.
  pub loop_goodbye :
      (cs : List Bytes) (rest : Bytes) (ending : Ending) (wakes : List Wake) (s : Session)
      {t : ClipboardState}
      → All IsMessage cs
      → incoming O cs s.state ≡ (ok tt, t)
      → sync_loop_inner O
          (read_wakes cs ++ read_wake ∷ wakes)
          (with_bytes (messages cs (goodbye_message ++ rest)) ending s)
        ≡ (ok leave, record (with_bytes rest ending s) { state = t })
  unfolding sync_loop_inner
  loop_goodbye cs rest ending wakes s {t} h e =
      messages_then cs (goodbye_message ++ rest) ending (read_wake ∷ wakes) s h e
      ∙ rw (round_goodbye rest ending (record s { state = t }))

  round_eof :
      (s : Session)
      → round O read_wake (with_bytes [] closed s)
        ≡ (raise (protocol_error closed_in_length), with_bytes [] closed s)
  unfolding round
  round_eof s = rw read_netstring-closed

  -- A connection that the peer closes behind a message, with no goodbye, ends the loop with a
  -- protocol error once the messages are handled.
  pub loop_eof :
      (cs : List Bytes) (wakes : List Wake) (s : Session) {t : ClipboardState}
      → All IsMessage cs
      → incoming O cs s.state ≡ (ok tt, t)
      → sync_loop_inner O
          (read_wakes cs ++ read_wake ∷ wakes)
          (with_bytes (messages cs []) closed s)
        ≡ (raise (protocol_error closed_in_length), record (with_bytes [] closed s) { state = t })
  unfolding sync_loop_inner
  loop_eof cs wakes s {t} h e =
      messages_then cs [] closed (read_wake ∷ wakes) s h e ∙ rw (round_eof (record s { state = t }))
