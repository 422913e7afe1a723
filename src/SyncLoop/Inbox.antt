-- ===== src/SyncLoop/Inbox.antt =====
-- The loop of sync_loop_inner.py over the bytes of encoded contents is the loop over the list of the
-- contents themselves, where an empty content is the goodbye.
pub mod Ready
pub mod Reads
use pclipsync.Base.{
  ℕ, zero, suc, ◌+◌, ◌≤◌, ◌≡◌, refl, sym, ap, ◌∙◌, Bool, true, false, List, [], ◌∷◌, ◌++◌, arith,
  length, All, if◌then◌else◌, Bool-cases, inl, inr,
}
use pclipsync.Exec.{Result, ok, raise, Exec, pure, continue, ◌>>=◌, ◌>>◌, modify}
use pclipsync.Protocol.{Ending, max_content_size, read_netstring, is_goodbye}
use pclipsync.Protocol.RoundTrip.{read_netstring-encode_netstring}
use pclipsync.X11.{Bytes, Outside}
use pclipsync.State.{ClipboardState, Io}
use pclipsync.Sync.{handle_incoming_content}
use pclipsync.SyncLoop.{
  process_x11_events, send_goodbye, Session, Wake, Outcome, stay, leave, x11_round, read_round,
  shutdown_round, round, sync_loop_inner,
}
use pclipsync.SyncLoop.Rounds.{messages}

-- The state, and the contents that the remote side has sent and that are not handled yet.
pub record Inbox : Type 0 where
  pub state : ClipboardState
  pub contents : List Bytes

abbrev pub on_inbox : {A : Type 0} → Io A → Exec Inbox A
on_inbox m i = let (r, t) = m i.state in (r, record i { state = t })

module _ (O : Outside) where
  unfoldable pub x11_handled : Bool → Exec Inbox (Unit {0})
  x11_handled false = pure tt
  x11_handled true =
      on_inbox (do modify (λ s. record s { x11_event = false }); process_x11_events O)

  unfoldable pub delivered : Bytes → Exec Inbox Outcome
  delivered [] = pure leave
  delivered (b ∷ content) = do on_inbox (handle_incoming_content O (b ∷ content)); pure stay

  unfoldable pub taken : Bool → Exec Inbox Outcome
  unfolding delivered
  taken false i = (ok stay, i)
  taken true i = elim i.contents [
    | [] ↦ (ok stay, i)
    | c ∷ cs ↦ delivered c (record i { contents = cs })
  ]

  unfoldable pub shut_down : Bool → Outcome → Exec Inbox Outcome
  shut_down shutdown leave = pure leave
  shut_down false stay = pure stay
  shut_down true stay = do on_inbox (send_goodbye O); pure leave

  unfoldable pub inbox_round : Wake → Exec Inbox Outcome
  unfolding x11_handled taken shut_down
  inbox_round w = do
    x11_handled w.x11_task
    outcome ← taken w.read_task
    shut_down w.shutdown_task outcome

  -- What the loop does to its state and to the contents that have arrived.
  unfoldable pub inbox_loop : List Wake → Exec Inbox Outcome
  unfolding inbox_round
  inbox_loop [] = pure stay
  inbox_loop (w ∷ wakes) = do
    outcome ← inbox_round w
    elim outcome [ leave ↦ pure leave | stay ↦ inbox_loop wakes ]

abbrev pub counted : Bool → ℕ → ℕ
counted true n = suc n
counted false n = n

-- How often the read task is done.
abbrev pub reads : List Wake → ℕ
reads [] = 0
reads (w ∷ wakes) = counted w.read_task (reads wakes)

abbrev pub IsWithinLimit : Bytes → Type 0
IsWithinLimit c = length c ≤ max_content_size

-- At least `n` contents have arrived, all within the limit.
abbrev pub IsReady : ℕ → Inbox → Type 0
IsReady n i = All IsWithinLimit i.contents × (n ≤ length i.contents)

unfoldable pub StaysReady : ℕ → Result Outcome × Inbox → Type 0
StaysReady n (ok stay, i) = IsReady n i
StaysReady n (ok leave, i) = Unit
StaysReady n (raise x, i) = Unit
