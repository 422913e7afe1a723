-- ===== src/Delivery/Agreement.antt =====
-- What the clipboards of both sides hold once messages have arrived: sync_handlers.py on one side
-- and the loop of sync_loop_inner.py on the other.
use pclipsync.Base.{◌≡◌, refl, sym, ap, subst, ◌∙◌, some, ◌∷◌}
use pclipsync.HashState.{HashState, fresh, record_sent, record_received}
use pclipsync.HashState.Laws.{should_send_of_sent}
use pclipsync.Protocol.{Ending, encode_netstring}
use pclipsync.X11.{Bytes, Atom, WindowId, Outside}
use pclipsync.State.{ClipboardState, Accepts}
use pclipsync.Sync.Silent.{network}
use pclipsync.Sync.Content.{handle_incoming_content-HasContent}
use pclipsync.Sync.Incoming.{handle_incoming_content-records}
use pclipsync.Sync.Returns.{Answers}
use pclipsync.SyncLoop.{Session, round}
use pclipsync.SyncLoop.Rounds.{IsMessage, read_wake, with_bytes}
use pclipsync.SyncLoop.Own.{IsQuiet, IsQuiet-refused, NeverEchoes, NeverEchoes-received}
use pclipsync.SyncLoop.Copied.{Copies, copied, copied-IsSent}
use pclipsync.Delivery.Rounds.{received, round-encode_netstring}

-- The content to serve is this one.
abbrev pub HasContent : Bytes → ClipboardState → Type 0
HasContent c t = t.current_content ≡ c

sent_hash :
    (O : Outside) (c : Bytes) (k : HashState)
    → (record_sent (O.sha256 c) k).last_sent_hash ≡ some (O.sha256 c)
unfolding record_sent
sent_hash O c k = refl

received_hash :
    (O : Outside) (c : Bytes) (k : HashState)
    → ((record_received (O.sha256 c) k).last_received_hash ≡ some (O.sha256 c))
      × ((record_received (O.sha256 c) k).last_sent_hash ≡ k.last_sent_hash)
unfolding record_received
received_hash O c k = (refl, refl)

-- A side that holds a content that came from the other one, whose hash is the last one received,
-- with the hash sent last as it was.
record Took (O : Outside) (c : Bytes) (k : HashState) (t : ClipboardState) : Type 0 where
  holds : t.current_content ≡ c
  received_last : t.hash_state.last_received_hash ≡ some (O.sha256 c)
  sent_last : t.hash_state.last_sent_hash ≡ k.last_sent_hash

received-Took :
    (O : Outside) (c : Bytes) (ending : Ending) (r : Session)
    → Took O c r.state.hash_state (received O c ending r).state
received-Took O c ending r =
    let e = (handle_incoming_content-records O c r.state).hashes in
    let (f, g) = received_hash O c r.state.hash_state in
    record {
      holds = handle_incoming_content-HasContent O c r.state;
      received_last = ap (λ (k : HashState). k.last_received_hash) e ∙ f;
      sent_last = ap (λ (k : HashState). k.last_sent_hash) e ∙ g;
    }

module _ (O : Outside) (c : Bytes) (m : IsMessage c) (s : ClipboardState) where
  IsQuiet-sent : s.hash_state.last_sent_hash ≡ some (O.sha256 c) → IsQuiet O c s
  IsQuiet-sent e = IsQuiet-refused O c m.1 s (should_send_of_sent s.hash_state (O.sha256 c) e)

-- One side has sent a content that another application copied, the other has read it.
module _ (O : Outside) (A : Accepts O) (N : Answers O) (O' : Outside) where
  -- On an X server that takes every request and always says who owns a selection: if another
  -- application takes a selection while the state is well formed, and its content can be read,
  -- whole or by chunks, is not empty and is within the limit, and no look at the queue behind it
  -- raises, then once the other side has read the encoded content, in a round in which only the
  -- read task is done, both sides hold that content. The next event that tells the copying side
  -- that its window has taken a selection does not write it again, and no number of such events on
  -- the other side writes it back.
  pub copied-Agrees :
      (a : Atom) (owner : WindowId) (c : Bytes) (s : ClipboardState) (ending : Ending) (r : Session)
      → Copies O N a owner c s
      → let s' = copied O a owner s in
        let r' = (round O' read_wake (with_bytes (encode_netstring c) ending r)).1 in
        HasContent c s' × HasContent c r'.state × IsQuiet O c s' × NeverEchoes O' c r'.state
  copied-Agrees a owner c s ending r h =
      let s' = copied O a owner s in
      let sent = copied-IsSent O A N a owner c s h in
      let took = received-Took O' c ending r in
      subst
        (λ (t : Session).
          HasContent c s' × HasContent c t.state × IsQuiet O c s' × NeverEchoes O' c t.state)
        (sym (round-encode_netstring O' c ending r h.message))
        (
          sent.content,
          took.holds,
          IsQuiet-sent O c h.message s'
              (ap (λ (k : HashState). k.last_sent_hash) sent.recorded ∙ sent_hash O c fresh),
          NeverEchoes-received O' c (received O' c ending r).state took.received_last,
        )

module _ (O : Outside) (A : Accepts O) (N : Answers O) where
  -- A side that has sent one content and then reads another.
  copied-Overtaken :
      (a : Atom) (owner : WindowId) (c d : Bytes) (s : ClipboardState) (ending : Ending)
      (r : Session)
      → Copies O N a owner c s
      → IsMessage d
      → let t =
          (round O read_wake
            (with_bytes (encode_netstring d) ending (record r { state = copied O a owner s }))).1 in
        HasContent d t.state × IsQuiet O c t.state × NeverEchoes O d t.state
  copied-Overtaken a owner c d s ending r h m =
      let s' = copied O a owner s in
      let r' : Session = record r { state = s' } in
      let sent = copied-IsSent O A N a owner c s h in
      let took = received-Took O d ending r' in
      let t = (received O d ending r').state in
      subst (λ (u : Session). HasContent d u.state × IsQuiet O c u.state × NeverEchoes O d u.state)
        (sym (round-encode_netstring O d ending r' m))
        (
          took.holds,
          IsQuiet-sent O c h.message t (
              took.sent_last
              ∙ ap (λ (k : HashState). k.last_sent_hash) sent.recorded
              ∙ sent_hash O c fresh),
          NeverEchoes-received O d t took.received_last,
        )

-- The session of a side that has sent one content and then reads another.
abbrev pub overtaken : Outside → Atom → WindowId → Bytes → Ending → Session → Session
overtaken O a owner d ending r =
    (round O read_wake
      (with_bytes (encode_netstring d) ending (record r { state = copied O a owner r.state }))).1

-- A side that holds the content it has read, and writes neither of the two for its own selections.
abbrev pub Settled : Outside → Bytes → Bytes → Session → Type 0
Settled O c d t = HasContent d t.state × IsQuiet O c t.state × NeverEchoes O d t.state

module _ (O : Outside) (A : Accepts O) (N : Answers O) (O' : Outside) (A' : Accepts O')
    (N' : Answers O') where
  -- On X servers that take every request and always say who owns a selection: if on both sides
  -- another application takes a selection while the state is well formed, and its content can be
  -- read, whole or by chunks, is not empty and is within the limit, and no look at the queue
  -- behind it raises, and only then each side reads what the other one wrote, then each side holds
  -- the content of the other. The next event that tells a side that its window has taken a
  -- selection does not write its own content again, and no number of such events writes back the
  -- content that it has read.
  pub crossing-Settled :
      (a a' : Atom) (owner owner' : WindowId) (c c' : Bytes) (ending ending' : Ending)
      (l r : Session)
      → Copies O N a owner c l.state
      → Copies O' N' a' owner' c' r.state
      → (network (copied O a owner l.state).display.history
          ≡ encode_netstring c ∷ network l.state.display.history)
        × (network (copied O' a' owner' r.state).display.history
            ≡ encode_netstring c' ∷ network r.state.display.history)
        × Settled O c c' (overtaken O a owner c' ending l)
        × Settled O' c' c (overtaken O' a' owner' c ending' r)
  crossing-Settled a a' owner owner' c c' ending ending' l r h h' = (
    (copied-IsSent O A N a owner c l.state h).wrote,
    (copied-IsSent O' A' N' a' owner' c' r.state h').wrote,
    copied-Overtaken O A N a owner c c' l.state ending l h h'.message,
    copied-Overtaken O' A' N' a' owner' c' c r.state ending' r h' h.message,
  )
