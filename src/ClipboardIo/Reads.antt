-- ===== src/ClipboardIo/Reads.antt =====
-- The events and chunks of a transfer by the INCR protocol, as `_handle_incr_transfer` of
-- clipboard_io.py meets them.
use pclipsync.Base.{
  ℕ, ◌+◌, ◌<◌, ◌≡◌, refl, sym, ap, ◌∙◌, Option, some, List, [], ◌∷◌, arith, length,
}
use pclipsync.Exec.{Exn, Result, ok}
use pclipsync.X11.{Bytes, Atom, WindowId, Event, Request, Outside, Poll}
use pclipsync.State.{ClipboardState, perform, full_property}
use pclipsync.State.Keeps.{Keeps, Keeps-pure, Keeps-answer, Keeps-if, Keeps-catch, Keeps-bind}
use pclipsync.Wait.Laws.{wait_loop_uses}
use pclipsync.Wait.{is_new_value, wait_until, wait_for_property_notify}
use pclipsync.ClipboardIo.{incr_chunk_timeout, or_else, read_chunk_property}

abbrev pub await : Atom → ClipboardState → Result (Option Event) × ClipboardState
await a s = wait_for_property_notify s.window a incr_chunk_timeout s

module _ (O : Outside) (a : Atom) where
  -- From one state to another the owner gave these chunks, each after an event that announced it,
  -- and then an empty one.
  pub data Reads : ClipboardState → List Bytes → ClipboardState → Type 0 where
    last :
        {s t : ClipboardState} (e : Event) (u : ClipboardState)
        → await a s ≡ (ok (some e), u)
        → read_chunk_property O a u ≡ (ok (some []), t)
        → Reads s [] t
    next :
        {s t : ClipboardState} {b : ℕ} {bs : Bytes} {cs : List Bytes} (e : Event)
        (u v : ClipboardState)
        → await a s ≡ (ok (some e), u)
        → read_chunk_property O a u ≡ (ok (some (b ∷ bs)), v)
        → Reads v cs t
        → Reads s ((b ∷ bs) ∷ cs) t

module _ (O : Outside) (a : Atom) where
  abbrev pub HasPolls : List Poll → ClipboardState → Type 0
  HasPolls k s = s.display.polls ≡ k

  perform-HasPolls : (k : List Poll) (r : Request) → Keeps (HasPolls k) (perform O r)
  perform-HasPolls k r = record { at = λ s h. h }

  full_property-HasPolls : (k : List Poll) (w : WindowId) → Keeps (HasPolls k) (full_property O w a)
  full_property-HasPolls k w = record { at = λ s h. h }

  or_else-HasPolls :
      {A : Type 0} (k : List Poll) (b : A) (x : Exn) → Keeps (HasPolls k) (or_else b x)
  or_else-HasPolls k b x = search (Keeps-pure, Keeps-answer, Keeps-if)

  pub read_chunk-HasPolls : (k : List Poll) → Keeps (HasPolls k) (read_chunk_property O a)
  unfolding read_chunk_property
  read_chunk-HasPolls k =
      search
        (
          Keeps-pure, Keeps-answer, Keeps-catch, Keeps-bind, perform-HasPolls,
          full_property-HasPolls, or_else-HasPolls,
        )
        depth 12

  read_chunk_polls :
      (s t : ClipboardState) (r : Result (Option Bytes))
      → read_chunk_property O a s ≡ (r, t)
      → t.display.polls ≡ s.display.polls
  read_chunk_polls s t r h =
      sym (ap (λ (x : Result (Option Bytes) × ClipboardState). x.1.display.polls) h)
      ∙ (read_chunk-HasPolls s.display.polls).at s refl

  -- Every round takes an event off the polls.
  pub rounds_enough :
      {s t : ClipboardState} {cs : List Bytes}
      → Reads O a s cs t
      → length cs < length s.display.polls
  unfolding wait_for_property_notify wait_until
  rounds_enough {s} (last e u w r) =
      let shorter =
        wait_loop_uses (is_new_value s.window a) (s.display.monotonic + incr_chunk_timeout)
          s.display.polls s u e w in
      ground arith
  rounds_enough {s} (next e u v w r more_reads) =
      let shorter =
        wait_loop_uses (is_new_value s.window a) (s.display.monotonic + incr_chunk_timeout)
          s.display.polls s u e w in
      let same = ap (λ (l : List Poll). length l) (read_chunk_polls u v _ r) in
      let fewer = rounds_enough more_reads in ground arith
