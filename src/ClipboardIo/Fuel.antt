-- ===== src/ClipboardIo/Fuel.antt =====
-- The loop over received chunks in clipboard_io.py needs no more rounds than there are polls.
use pclipsync.Base.{
  ℕ, zero, suc, ◌+◌, ◌≤◌, ◌<◌, ◌≡◌, refl, sym, ap, ◌∙◌, Option, none, some, List, arith, length,
}
use pclipsync.Exec.{Result, ok, raise, pure, continue, ◌>>=◌}
use pclipsync.X11.{Bytes, Atom, Event, Outside, Poll}
use pclipsync.State.{ClipboardState, Io}
use pclipsync.State.Keeps.{Keeps, Keeps-pure, Keeps-bind}
use pclipsync.Wait.{wait_for_property_notify, wait_until, is_new_value}
use pclipsync.Wait.Laws.{wait_loop_uses}
use pclipsync.ClipboardIo.Reads.{HasPolls, read_chunk-HasPolls}
use pclipsync.ClipboardIo.{Step, more, done, incr_chunk_timeout, next_chunk, take_chunk, chunk_loop}

module _ (O : Outside) (a : Atom) where
  abbrev step_on : ℕ → Step → Io (Option Bytes)
  step_on fuel step = elim step [ more buf ↦ chunk_loop O fuel a buf | done r ↦ pure r ]

  abbrev round_on : ℕ → Bytes → Option Event → Io (Option Bytes)
  round_on fuel buf event = next_chunk O a buf event >>= λ step. step_on fuel step

  chunk_loop-suc :
      (fuel : ℕ) (buf : Bytes) (s : ClipboardState)
      → chunk_loop O (suc fuel) a buf s
        ≡ (wait_for_property_notify s.window a incr_chunk_timeout >>= λ e. round_on fuel buf e) s
  unfolding chunk_loop
  chunk_loop-suc fuel buf s = refl

  next_chunk-HasPolls :
      (k : List Poll) (buf : Bytes) (e : Event)
      → Keeps (HasPolls O a k) (next_chunk O a buf (some e))
  unfolding next_chunk
  next_chunk-HasPolls k buf e =
      Keeps-bind _ _ (read_chunk-HasPolls O a k) λ chunk. Keeps-pure (take_chunk buf chunk)

  module _ (n m : ℕ)
      (again : (buf : Bytes) (t : ClipboardState)
        → length t.display.polls < n
        → length t.display.polls < m
        → chunk_loop O n a buf t ≡ chunk_loop O m a buf t) where
    same_step :
        (r : Result Step) (t : ClipboardState)
        → length t.display.polls < n
        → length t.display.polls < m
        → continue r (λ step. step_on n step) t ≡ continue r (λ step. step_on m step) t
    same_step (ok (more buf)) t h k = again buf t h k
    same_step (ok (done r)) t h k = refl
    same_step (raise x) t h k = refl

    same_round :
        (buf : Bytes) (s : ClipboardState) (r : Result (Option Event)) (t : ClipboardState)
        → length s.display.polls ≤ n
        → length s.display.polls ≤ m
        → wait_for_property_notify s.window a incr_chunk_timeout s ≡ (r, t)
        → continue r (λ e. round_on n buf e) t ≡ continue r (λ e. round_on m buf e) t
    unfolding next_chunk wait_for_property_notify wait_until
    same_round buf s (ok (some e)) t h k w =
        let shorter =
          wait_loop_uses (is_new_value s.window a) (s.display.monotonic + incr_chunk_timeout)
            s.display.polls s t e w in
        let kept : length (next_chunk O a buf (some e) t).1.display.polls ≡ length t.display.polls =
          ap (λ (l : List Poll). length l)
            ((next_chunk-HasPolls t.display.polls buf e).at t refl) in
        same_step _ _ (omega arith) (omega arith)
    same_round buf s (ok none) t h k w = refl
    same_round buf s (raise x) t h k w = refl

  -- With more rounds than there are polls, the loop over received chunks gives the same result and
  -- the same state, however many more: the bound on its rounds is never what ends it.
  pub chunk_loop-enough :
      (n m : ℕ) (buf : Bytes) (s : ClipboardState)
      → length s.display.polls < n
      → length s.display.polls < m
      → chunk_loop O n a buf s ≡ chunk_loop O m a buf s
  chunk_loop-enough zero m buf s h k = absurd (omega arith)
  chunk_loop-enough (suc n) zero buf s h k = absurd (omega arith)
  chunk_loop-enough (suc n) (suc m) buf s h k =
      chunk_loop-suc n buf s
      ∙ same_round n m (λ buf' t. chunk_loop-enough n m buf' t) buf s _ _ (omega arith)
          (omega arith) refl
      ∙ sym (chunk_loop-suc m buf s)
