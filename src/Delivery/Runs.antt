-- ===== src/Delivery/Runs.antt =====
-- Whole runs of both sides (sync_loop.py): what one side writes in its run, the other side reads as
-- a list of contents, whatever else it does meanwhile.
use pclipsync.Base.{
  ℕ, zero, suc, length-append, ◌≤◌, ◌≡◌, refl, sym, ap, ◌∙◌, ◌⊎◌, inl, inr, List, [], ◌∷◌, ◌++◌,
  append-nil, length, All, All-append, arith, subst,
}
use pclipsync.Protocol.RoundTrip.{read_netstring-closed, read_netstring-encode_netstring}
use pclipsync.Protocol.{
  read_netstring, Stream, closed, encode_netstring, decimal, goodbye_message, Ending,
}
use pclipsync.Exec.{Result, ok, raise}
use pclipsync.X11.{Bytes, Outside}
use pclipsync.Sync.Silent.{network}
use pclipsync.SyncLoop.{Session, Wake, run_sync_loop, sync_loop_inner}
use pclipsync.SyncLoop.Rounds.{messages, IsMessage, with_bytes, encode_netstring-nil}
use pclipsync.SyncLoop.Conversation.{written, messages-++}
use pclipsync.SyncLoop.Conversation.Runs.{run_sync_loop-IsConversation}
use pclipsync.SyncLoop.Inbox.{inbox_loop, reads, IsWithinLimit}
use pclipsync.SyncLoop.Inbox.Reads.{as_result, sync_loop_inner-inbox_loop}

-- The contents of a conversation, with an empty one for its goodbye.
with_goodbye : {X Y : Type 0} → List Bytes → X ⊎ Y → List Bytes
with_goodbye cs (inl none) = cs
with_goodbye cs (inr goodbye) = cs ++ [] ∷ []

and_then : (Bytes → List Bytes) → Result Bytes × Stream → List Bytes
and_then again (ok content, s) = content ∷ again s.bytes
and_then again (raise x, s) = []

-- All contents that can be read from bytes, one after the other; each takes a byte at least.
read_all : ℕ → Bytes → List Bytes
unfolding and_then
read_all zero bytes = []
read_all (suc fuel) bytes =
    and_then (λ b. read_all fuel b) (read_netstring (record { bytes = bytes; ending = closed }))

-- The contents that a run sends, the goodbye as an empty one.
unfoldable pub sent_contents : Outside → List Wake → Session → List Bytes
unfolding read_all
sent_contents O wakes s =
    let bytes = written (network (run_sync_loop O wakes s).1.state.display.history) in
    read_all (length bytes) bytes

read_all-nil : (fuel : ℕ) → read_all fuel [] ≡ []
unfolding read_all
read_all-nil zero = refl
read_all-nil (suc fuel) = rw read_netstring-closed

read_all-messages :
    (cs : List Bytes) (fuel : ℕ)
    → All IsWithinLimit cs
    → length cs ≤ fuel
    → read_all fuel (messages cs []) ≡ cs
unfolding read_all
read_all-messages [] fuel h le = read_all-nil fuel
read_all-messages (c ∷ cs) zero h le = absurd (omega arith)
read_all-messages (c ∷ cs) (suc fuel) (h, hs) le =
    rw (read_netstring-encode_netstring c (messages cs []) closed h)
      (ap (λ l. c ∷ l) (read_all-messages cs fuel hs (omega arith)))

length-encode_netstring : (c : Bytes) → 1 ≤ length (encode_netstring c)
unfolding encode_netstring
length-encode_netstring c =
    omega (arith, length-append (decimal (length c)) (b':' ∷ (c ++ b',' ∷ [])))

length-messages : (cs : List Bytes) → length cs ≤ length (messages cs [])
length-messages [] = omega arith
length-messages (c ∷ cs) = omega (
  arith,
  length-append (encode_netstring c) (messages cs []),
  length-encode_netstring c,
  length-messages cs,
)

within : (cs : List Bytes) → All IsMessage cs → All IsWithinLimit cs
within [] h = tt
within (c ∷ cs) (h, hs) = (h.1, within cs hs)

with_goodbye-IsWithinLimit :
    {X Y : Type 0} (cs : List Bytes) (e : X ⊎ Y)
    → All IsMessage cs
    → All IsWithinLimit (with_goodbye cs e)
unfolding with_goodbye
with_goodbye-IsWithinLimit cs (inl none) h = within cs h
with_goodbye-IsWithinLimit cs (inr goodbye) h =
    All-append IsWithinLimit cs ([] ∷ []) (within cs h) (omega arith, tt)

messages-with_goodbye :
    {Y : Type 0} (cs : List Bytes) (rest : Bytes) (e : (rest ≡ []) ⊎ ((rest ≡ goodbye_message) × Y))
    → messages cs rest ≡ messages (with_goodbye cs e) []
unfolding with_goodbye
messages-with_goodbye cs rest (inl none) = ap (λ m. messages cs m) none
messages-with_goodbye cs rest (inr (e, ends)) =
    ap (λ m. messages cs m) (e ∙ sym (append-nil _ ∙ encode_netstring-nil))
    ∙ sym (messages-++ cs ([] ∷ []) [])

module _ (O : Outside) (wakes : List Wake) (s : Session)
    (fresh : network s.state.display.history ≡ []) where
  sent :
      (cs : List Bytes) × All IsWithinLimit cs
      × (written (network (run_sync_loop O wakes s).1.state.display.history) ≡ messages cs [])
  unfolding written
  sent =
      let p = run_sync_loop-IsConversation O wakes s in
      (
        with_goodbye p.contents p.ended,
        with_goodbye-IsWithinLimit p.contents p.ended p.each,
        p.wrote
            ∙ ap (λ n. written n ++ messages p.contents p.rest) fresh
            ∙ messages-with_goodbye p.contents p.rest p.ended,
      )

  sent-sent_contents : sent_contents O wakes s ≡ sent.0
  unfolding sent_contents
  sent-sent_contents =
      let (cs, fits, e) = sent in
      ap (λ b. read_all (length b) b) e ∙ read_all-messages cs _ fits (length-messages cs)

  -- On a new connection, whatever the X servers, the other applications and the schedules of both
  -- sides do: over the bytes that a run of one side writes, the loop of the other side, as long as
  -- it reads no more often than contents were sent, does exactly what the loop over the list of
  -- those contents does, and leaves nothing to read but the encodings of the contents that are
  -- left.
  pub run_sync_loop-Delivered :
      (O' : Outside) (ending : Ending) (wakes' : List Wake) (s' : Session)
      → reads wakes' ≤ length (sent_contents O wakes s)
      → sync_loop_inner O' wakes' (
          with_bytes
            (written (network (run_sync_loop O wakes s).1.state.display.history))
            ending
            s')
        ≡ as_result O' [] ending s'
            (inbox_loop O' wakes' (record { state = s'.state; contents = sent_contents O wakes s }))
  run_sync_loop-Delivered O' ending wakes' s' few =
      let (cs, fits, e) = sent in
      rw (e, sent-sent_contents)
        (sync_loop_inner-inbox_loop O' [] ending s' wakes'
          (record { state = s'.state; contents = cs }) fits
          (subst (λ l. reads wakes' ≤ length l) sent-sent_contents few))
