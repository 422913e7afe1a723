-- ===== src/Incr/Initiate.antt =====
-- clipboard_selection_incr_initiate.py: the start of a transfer, and what is left of it when the
-- requestor cannot be notified.
use pclipsync.Base.{ℕ, ◌≡◌, refl, false, some, List, [], ◌∷◌, arith, length}
use pclipsync.Base.Dict.{get, put, get-put, put-NodupKeys, count_first-put_pos}
use pclipsync.Exec.{ok, raise, other_error}
use pclipsync.X11.{
  Bytes, Atom, SelectionRequest, EventMask, property_and_structure, Request, change_attributes,
  change_property, send_event, flush, Outside,
}
use pclipsync.State.{IncrSendState, ClipboardState, asked, with_pending, Accepts}
use pclipsync.Incr.{Pending, reply, new_transfer, initiate_incr_send}
use pclipsync.Incr.Subscribe.{subscribed}
use pclipsync.Incr.Cleanup.{IsKeyed, IsWellFormed}

put-IsKeyed :
    (st : IncrSendState) (d : Pending)
    → IsKeyed d
    → IsKeyed (put (st.requestor, st.property_atom) st d)
unfolding put
put-IsKeyed st [] k = (refl, refl, tt)
put-IsKeyed st (((w, p), old) ∷ d) k = ground (arith, put-IsKeyed st d)

module _ (O : Outside) (A : Accepts O) (e : SelectionRequest) (content : Bytes) (incr_atom : Atom)
    (s : ClipboardState) where
  pub initiate_incr_send_lem : initiate_incr_send O e content incr_atom s ≡ (
    ok tt,
    with_pending
        (put (e.requestor, e.property) (new_transfer e content s.display.wall) s.pending_incr_sends)
        (asked flush (
          asked (send_event e.requestor (reply e e.property)) (
            asked
              (change_property e.requestor e.property incr_atom 32 (length content ∷ []))
              (asked (change_attributes e.requestor property_and_structure) s)))),
  )
  unfolding initiate_incr_send
  initiate_incr_send_lem = simp A.takes

  -- On an X server that takes every request, starting a transfer keeps the state well formed.
  pub initiate_incr_send-IsWellFormed :
      IsWellFormed s → IsWellFormed (initiate_incr_send O e content incr_atom s).1
  unfolding subscribed
  initiate_incr_send-IsWellFormed wf = rw initiate_incr_send_lem (record {
    nodup =
        put-NodupKeys (e.requestor, e.property) (new_transfer e content s.display.wall)
          s.pending_incr_sends wf.nodup;
    keyed = put-IsKeyed (new_transfer e content s.display.wall) s.pending_incr_sends wf.keyed;
    tracked = record {
      tracks = λ u. ground (
        arith,
        wf.tracked.tracks u,
        count_first-put_pos e.requestor e.property u (new_transfer e content s.display.wall)
            s.pending_incr_sends,
      );
    };
  })

-- An X server that takes every request but the SelectionNotify that begins the transfer.
pub record RefusesNotify (O : Outside) (e : SelectionRequest) : Type 0 where
  pub takes_attributes :
      (h : List Request) (m : EventMask) → O.perform h (change_attributes e.requestor m) ≡ ok tt
  pub takes_property :
      (h : List Request) (t : Atom) (v : List ℕ)
      → O.perform h (change_property e.requestor e.property t 32 v) ≡ ok tt
  pub takes_flush : (h : List Request) → O.perform h flush ≡ ok tt
  pub refuses :
      (h : List Request)
      → O.perform h (send_event e.requestor (reply e e.property)) ≡ raise other_error
  pub takes_refusal :
      (h : List Request) → O.perform h (send_event e.requestor (reply e O.none_atom)) ≡ ok tt

-- If the X server takes the event mask, the property, the flush and the refusal, but not the
-- notification that begins a transfer, the exception goes on, the event mask is cleared, and the
-- transfer stays listed.
pub initiate_incr_send-refused :
    (O : Outside) (e : SelectionRequest) (content : Bytes) (incr_atom : Atom) (s : ClipboardState)
    → RefusesNotify O e
    → let (r, t) = initiate_incr_send O e content incr_atom s in
      (r ≡ raise other_error)
      × (get (e.requestor, e.property) t.pending_incr_sends
          ≡ some (new_transfer e content s.display.wall))
      × (subscribed e.requestor t.display.history ≡ false)
unfolding initiate_incr_send subscribed
initiate_incr_send-refused O e content incr_atom s R =
    simp (R.takes_attributes, R.takes_property, R.takes_flush, R.refuses, R.takes_refusal)
      (refl, rw get-put (ground arith), ground arith)
