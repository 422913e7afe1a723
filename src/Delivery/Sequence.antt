-- ===== src/Delivery/Sequence.antt =====
-- Several copies in a row: the other side ends with the last one. sync_loop_inner.py and
-- sync_handlers.py on both sides.
use pclipsync.Base.{◌≡◌, refl, sym, ap, ◌∙◌, List, [], ◌∷◌, ◌++◌, append-nil, append_assoc, All}
use pclipsync.Exec.{Result, ok}
use pclipsync.Protocol.{Ending, encode_netstring}
use pclipsync.X11.{Bytes, Atom, WindowId, Outside}
use pclipsync.State.{ClipboardState, Accepts}
use pclipsync.Sync.{handle_incoming_content}
use pclipsync.Sync.Silent.{network}
use pclipsync.Sync.Content.{handle_incoming_content-HasContent}
use pclipsync.Sync.Returns.{NoneLost, Answers, handle_incoming_content-Returned}
use pclipsync.SyncLoop.{Session, Outcome, stay, sync_loop_inner}
use pclipsync.SyncLoop.Rounds.{IsMessage, read_wakes, with_bytes, messages, incoming, messages_then}
use pclipsync.SyncLoop.Copied.{Copies, copied, copied-IsSent}
use pclipsync.SyncLoop.Conversation.{written}

-- Copies on one side, one after the other, and between them anything that writes nothing to the
-- socket and changes no content.
pub data Copying (O : Outside) (N : Answers O)
    : ClipboardState → List Bytes → ClipboardState → Type 0 where
  done : {s : ClipboardState} → Copying O N s [] s
  copy :
      {s t : ClipboardState} {c : Bytes} {cs : List Bytes} (a : Atom) (owner : WindowId)
      → Copies O N a owner c s
      → Copying O N (copied O a owner s) cs t
      → Copying O N s (c ∷ cs) t
  quiet :
      {s t : ClipboardState} {cs : List Bytes} (u : ClipboardState)
      → network u.display.history ≡ network s.display.history
      → u.current_content ≡ s.current_content
      → Copying O N u cs t
      → Copying O N s cs t

-- The last of the contents, or what was there before.
abbrev pub latest : Bytes → List Bytes → Bytes
latest old [] = old
latest old (c ∷ cs) = latest c cs

module _ (O : Outside) (A : Accepts O) (N : Answers O) where
  Copying-latest :
      {s t : ClipboardState} {cs : List Bytes}
      → Copying O N s cs t
      → t.current_content ≡ latest s.current_content cs
  Copying-latest done = refl
  Copying-latest {s} (copy {c = c} {cs = cs} a owner h more) =
      Copying-latest more ∙ ap (λ x. latest x cs) (copied-IsSent O A N a owner c s h).content
  Copying-latest {cs = cs} (quiet u n e more) = Copying-latest more ∙ ap (λ x. latest x cs) e

  Copying-IsMessage :
      {s t : ClipboardState} {cs : List Bytes} → Copying O N s cs t → All IsMessage cs
  Copying-IsMessage done = tt
  Copying-IsMessage (copy a owner h more) = (h.message, Copying-IsMessage more)
  Copying-IsMessage (quiet u n e more) = Copying-IsMessage more

  -- The bytes of the messages are written behind those that were written before.
  Copying-written :
      {s t : ClipboardState} {cs : List Bytes}
      → Copying O N s cs t
      → written (network t.display.history) ≡ written (network s.display.history) ++ messages cs []
  unfolding written
  Copying-written {s} done = sym (append-nil (written (network s.display.history)))
  Copying-written {s} (copy {c = c} {cs = cs} a owner h more) =
      Copying-written more
      ∙ ap (λ n. written n ++ messages cs []) (copied-IsSent O A N a owner c s h).wrote
      ∙ append_assoc (written (network s.display.history)) (encode_netstring c) (messages cs [])
  Copying-written {cs = cs} (quiet u n e more) =
      Copying-written more ∙ ap (λ l. written l ++ messages cs []) n

  incoming-Returned :
      (cs : List Bytes) (s : ClipboardState)
      → NoneLost s.display.polls
      → (incoming O cs s ≡ (ok tt, (incoming O cs s).1))
        × ((incoming O cs s).1.current_content ≡ latest s.current_content cs)
  unfolding incoming
  incoming-Returned [] s h = (refl, refl)
  incoming-Returned (c ∷ cs) s h =
      let (e, g) = handle_incoming_content-Returned O A N c s h in
      let (f, l) = incoming-Returned cs (handle_incoming_content O c s).1 g in
      rw e (f, l ∙ ap (λ x. latest x cs) (handle_incoming_content-HasContent O c s))

-- What the loop leaves: it waits, every byte is read, and its content is that of the other side.
pub record Converges (x : Result Outcome × Session) (ending : Ending) (t : ClipboardState)
    : Type 0 where
  pub waits : x.0 ≡ ok stay
  pub all_read : x.1.reader ≡ record { bytes = []; ending = ending }
  pub agrees : x.1.state.current_content ≡ t.current_content

module _ (O : Outside) (A : Accepts O) (N : Answers O) (O' : Outside) (A' : Accepts O')
    (N' : Answers O') where
  -- On X servers that take every request and always say who owns a selection, on a new connection
  -- of two sides that hold the same content: let other applications take selections on one side,
  -- one after the other, each in a well-formed state and with a content that can be read, is not
  -- empty and within the limit, no look at the queue behind it raising, and let nothing between
  -- these copies write to the socket or change the content. Then the loop of the other side, with
  -- one round for each copy in which only the read task is done, and with no look at its queue
  -- that raises, reads all that was written, goes on waiting, and ends with the content that the
  -- first side holds.
  pub Copying-Converges :
      (s t : ClipboardState) (cs : List Bytes) (ending : Ending) (r : Session)
      → network s.display.history ≡ []
      → s.current_content ≡ r.state.current_content
      → Copying O N s cs t
      → NoneLost r.state.display.polls
      → Converges
          (sync_loop_inner O'
            (read_wakes cs)
            (with_bytes (written (network t.display.history)) ending r))
          ending
          t
  unfolding sync_loop_inner written
  Copying-Converges s t cs ending r new same h alive =
      let wrote : written (network t.display.history) ≡ messages cs [] =
        Copying-written O A N h ∙ ap (λ n. written n ++ messages cs []) new in
      let (e, l) = incoming-Returned O' A' N' cs r.state alive in
      let end : Session = record (with_bytes [] ending r) { state = (incoming O' cs r.state).1 } in
      let run : sync_loop_inner O' (read_wakes cs)
            (with_bytes (written (network t.display.history)) ending r)
          ≡ (ok stay, end) =
        ap (λ b. sync_loop_inner O' (read_wakes cs) (with_bytes b ending r)) wrote
        ∙ ap (λ w. sync_loop_inner O' w (with_bytes (messages cs []) ending r))
            (sym (append-nil (read_wakes cs)))
        ∙ messages_then O' cs [] ending [] r {t = (incoming O' cs r.state).1}
            (Copying-IsMessage O A N h) e in
      rw run (record {
        waits = refl;
        all_read = refl;
        agrees = l ∙ ap (λ x. latest x cs) (sym same) ∙ sym (Copying-latest O A N h);
      })
