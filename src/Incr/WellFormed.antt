-- ===== src/Incr/WellFormed.antt =====
-- The handlers of clipboard_selection_incr_handle.py keep the transfers well formed.
use pclipsync.Base.{
  ℕ, ◌≡◌, refl, sym, ◌∙◌, Bool, true, false, some, [], ◌∷◌, arith, leb, if◌then◌else◌, Bool-cases,
  Option-cases, inl, inr, length, subst,
}
use pclipsync.Base.Dict.{
  Key, get, put, erase, NodupKeys, put-NodupKeys, erase-NodupKeys, count_first-put,
}
use pclipsync.Exec.{other_error, ok, raise}
use pclipsync.X11.{Bytes, Event, property_notify, destroy_notify, change_property, flush, Outside}
use pclipsync.State.{IncrSendState, ClipboardState, Io, asked, with_pending, Accepts}
use pclipsync.State.Keeps.{Keeps, Keeps-answer}
use pclipsync.Incr.{
  Pending, EventType, property_delete, destroy, unsubscribe_incr_requestor, write_chunk,
  send_incr_chunk, acknowledge, handle_property_delete, handle_incr_send_event,
}
use pclipsync.Incr.Subscribe.{subscribed, unsubscribe_incr_requestor_lem}
use pclipsync.Incr.Cleanup.{IsKeyed, IsWellFormed, kept-IsTracked, handle_destroy_event_lem}

pub get-IsKeyed :
    (w p : ℕ) (st : IncrSendState) (d : Pending)
    → IsKeyed d
    → get (w, p) d ≡ some st
    → (st.requestor ≡ w) × (st.property_atom ≡ p)
unfolding get
get-IsKeyed w p st [] k g = cc
get-IsKeyed w p st (((a, b), old) ∷ d) k g = ground (arith, get-IsKeyed w p st d)

put-IsKeyed :
    (w p : ℕ) (st : IncrSendState) (d : Pending)
    → st.requestor ≡ w
    → st.property_atom ≡ p
    → IsKeyed d
    → IsKeyed (put (w, p) st d)
unfolding put
put-IsKeyed w p st [] r q k = (r, q, tt)
put-IsKeyed w p st (((a, b), old) ∷ d) r q k = ground (arith, put-IsKeyed w p st d)

erase-IsKeyed : (k : Key) (d : Pending) → IsKeyed d → IsKeyed (erase k d)
unfolding erase
erase-IsKeyed (a, b) [] k = tt
erase-IsKeyed (a, b) (((x, y), st) ∷ d) k = ground (arith, erase-IsKeyed (a, b) d)

module _ (O : Outside) (A : Accepts O) where
  pub write_chunk_lem :
      (key : Key) (st st' : IncrSendState) (chunk : Bytes) (s : ClipboardState)
      → write_chunk O key st chunk st' s ≡ (
        ok tt,
        with_pending (put key st' s.pending_incr_sends) (
            asked flush
              (asked (change_property st.requestor st.property_atom st.target_atom 8 chunk) s)),
      )
  unfolding write_chunk
  write_chunk_lem key st st' chunk s = simp A.takes

  write_chunk-IsWellFormed :
      (w p : ℕ) (st st' : IncrSendState) (chunk : Bytes) (s : ClipboardState)
      → get (w, p) s.pending_incr_sends ≡ some st
      → st'.requestor ≡ st.requestor
      → st'.property_atom ≡ st.property_atom
      → IsWellFormed s
      → IsWellFormed (write_chunk O (w, p) st chunk st' s).1
  unfolding subscribed
  write_chunk-IsWellFormed w p st st' chunk s g r q wf =
      let (same_window, same_property) = get-IsKeyed w p st s.pending_incr_sends wf.keyed g in
      rw (write_chunk_lem (w, p) st st' chunk s) (record {
        nodup = put-NodupKeys (w, p) st' s.pending_incr_sends wf.nodup;
        keyed =
            put-IsKeyed w p st' s.pending_incr_sends (r ∙ same_window) (q ∙ same_property) wf.keyed;
        tracked = record {
          tracks = λ u.
              ground (arith, wf.tracked.tracks u, count_first-put w p u st' s.pending_incr_sends);
        };
      })

  send_incr_chunk-IsWellFormed :
      (w p : ℕ) (st : IncrSendState) (s : ClipboardState)
      → get (w, p) s.pending_incr_sends ≡ some st
      → IsWellFormed s
      → IsWellFormed (send_incr_chunk O st (w, p) s).1
  unfolding send_incr_chunk
  send_incr_chunk-IsWellFormed w p st s g wf =
      elim (Bool-cases (leb (length st.content) st.offset)) [
        | inl over ↦ rw over (write_chunk-IsWellFormed w p st _ _ s g refl refl wf)
        | inr under ↦ rw under (write_chunk-IsWellFormed w p st _ _ s g refl refl wf)
      ]

  unsubscribe_incr_requestor-IsWellFormed :
      (w p : ℕ) (st : IncrSendState) (s : ClipboardState)
      → get (w, p) s.pending_incr_sends ≡ some st
      → IsWellFormed s
      → IsWellFormed (unsubscribe_incr_requestor O st (w, p) s).1
  unsubscribe_incr_requestor-IsWellFormed w p st s g wf =
      let (same_window, same_property) = get-IsKeyed w p st s.pending_incr_sends wf.keyed g in
      let left : (unsubscribe_incr_requestor O st (w, p) s).1.pending_incr_sends
          ≡ erase (w, p) s.pending_incr_sends =
        rw (unsubscribe_incr_requestor_lem O A st w p s) in
      record {
        nodup = subst (λ d. NodupKeys d) (sym left) (erase-NodupKeys (w, p) _ wf.nodup);
        keyed = subst (λ d. IsKeyed d) (sym left) (erase-IsKeyed (w, p) _ wf.keyed);
        tracked = kept-IsTracked O A (λ key st. true) w p st s same_window g wf.tracked;
      }

  either :
      (b : Bool) (m n : Io (Unit {0})) (s : ClipboardState)
      → IsWellFormed (m s).1
      → IsWellFormed (n s).1
      → IsWellFormed ((if b then m else n) s).1
  either true m n s p q = p
  either false m n s p q = q

  acknowledge-IsWellFormed :
      (w p : ℕ) (st : IncrSendState) (s : ClipboardState)
      → get (w, p) s.pending_incr_sends ≡ some st
      → IsWellFormed s
      → IsWellFormed (acknowledge O (some st) (w, p) s).1
  unfolding acknowledge
  acknowledge-IsWellFormed w p st s g wf =
      either st.completion_sent (unsubscribe_incr_requestor O st (w, p))
        (send_incr_chunk O st (w, p)) s (unsubscribe_incr_requestor-IsWellFormed w p st s g wf)
        (send_incr_chunk-IsWellFormed w p st s g wf)

  -- Whatever a requestor acknowledges, and whenever: its transfers stay well formed.
  pub handle_property_delete-IsWellFormed :
      (w p : ℕ) (s : ClipboardState)
      → IsWellFormed s
      → IsWellFormed (handle_property_delete O w p s).1
  unfolding handle_property_delete
  handle_property_delete-IsWellFormed w p s wf =
      elim (Option-cases (get (w, p) s.pending_incr_sends)) [
        | inl none_there ↦ rw none_there (unfold acknowledge in wf)
        | inr (st, g) ↦ rw g (acknowledge-IsWellFormed w p st s g wf)
      ]

  pub handle_incr_send_event-IsWellFormed :
      (e : Event) (event_type : EventType)
      → Keeps IsWellFormed (handle_incr_send_event O e event_type)
  unfolding handle_incr_send_event
  handle_incr_send_event-IsWellFormed (destroy_notify w) destroy = record {
    at = λ s wf. (handle_destroy_event_lem O A s wf w).well_formed;
  }
  handle_incr_send_event-IsWellFormed (property_notify e) destroy = record {
    at = λ s wf. (handle_destroy_event_lem O A s wf e.window).well_formed;
  }
  handle_incr_send_event-IsWellFormed (property_notify e) property_delete = record {
    at = handle_property_delete-IsWellFormed e.window e.atom;
  }
  handle_incr_send_event-IsWellFormed _ _ = Keeps-answer (λ s. raise other_error)
