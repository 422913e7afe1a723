-- ===== src/Sync/Readable.antt =====
-- A clipboard content that can be read, whole or by the INCR protocol: `read_clipboard_content` of
-- clipboard_io.py from the request to the content.
use pclipsync.Base.{ℕ, ◌≤◌, ◌≡◌, true, false, some, List, ◌==◌, length, flatten}
use pclipsync.Exec.{ok}
use pclipsync.Protocol.{max_content_size}
use pclipsync.X11.{
  Bytes, Atom, WindowId, Event, Property, get_selection_owner, get_full_property, convert_selection,
  delete_property, flush, Outside,
}
use pclipsync.State.{ClipboardState, asked, Accepts}
use pclipsync.Wait.{any_selection_notify, wait_for_event_type}
use pclipsync.ClipboardIo.{
  clipboard_timeout, property_type, content_of, size_of, signal_deferred, read_property,
  read_selection_property, selection_arrived, wait_for_selection, request_selection,
  read_clipboard_content,
}
use pclipsync.ClipboardIo.Reads.{Reads}
use pclipsync.ClipboardIo.Receive.{handshaken, handle_incr_transfer-Reads}

-- The state once the selection is asked for.
abbrev pub converted : Outside → Atom → ClipboardState → ClipboardState
converted O a s =
    asked flush (
      asked (convert_selection s.window a O.utf8_atom O.prop_atom)
        (asked (get_selection_owner a) s))

-- The state once a property is looked at.
abbrev pub looked : Outside → ClipboardState → ClipboardState
looked O u = asked (get_full_property u.window O.prop_atom) u

-- The property holds the content, or announces a transfer of which the content is the chunks.
pub data Holds (O : Outside) (incr_atom : Atom) (c : Bytes)
    : ClipboardState → ClipboardState → Type 0 where
  whole :
      {u v : ClipboardState} (p : Property)
      → O.full_property u.display.history u.window O.prop_atom ≡ ok (some p)
      → property_type p == incr_atom ≡ false
      → content_of p ≡ ok c
      → v ≡ asked flush (asked (delete_property u.window O.prop_atom) (looked O u))
      → Holds O incr_atom c u v
  by_chunks :
      {u v : ClipboardState} (p : Property) (size : ℕ) (cs : List Bytes)
      → O.full_property u.display.history u.window O.prop_atom ≡ ok (some p)
      → property_type p == incr_atom ≡ true
      → size_of p ≡ ok size
      → Reads O O.prop_atom (handshaken O.prop_atom (looked O u)) cs v
      → c ≡ flatten cs
      → Holds O incr_atom c u v

-- The owner of a selection notifies, and the property then gives the content.
pub record Readable (O : Outside) (a : Atom) (c : Bytes) (s : ClipboardState) : Type 0 where
  pub owner : WindowId
  pub event : Event
  pub notified : ClipboardState
  pub read : ClipboardState
  pub has_owner : O.selection_owner s.display.history a ≡ ok owner
  pub is_owner : owner == O.none_atom ≡ false
  pub notifies :
      wait_for_event_type any_selection_notify clipboard_timeout (converted O a s)
      ≡ (ok (some event), notified)
  pub holds : Holds O s.incr_atom c notified read

module _ (O : Outside) (A : Accepts O) where
  arrived :
      (incr_atom : Atom) (c : Bytes) (e : Event) {u v : ClipboardState}
      → length c ≤ max_content_size
      → Holds O incr_atom c u v
      → selection_arrived O O.prop_atom incr_atom (some e) u ≡ (ok (some c), v)
  unfolding selection_arrived read_selection_property read_property
  arrived incr_atom c e fits (whole p h t r same) = simp (A.takes, h, t, r, same)
  arrived incr_atom c e {u} {v} fits (by_chunks p size cs h t r reads spells) =
      simp (h, t, r)
        (rw spells
          (handle_incr_transfer-Reads O A O.prop_atom (looked O u) v cs reads (rw spells at fits)))

  -- A content within the limit is returned, and the main loop is told of events put aside.
  pub read_clipboard_content_lem :
      (a : Atom) (c : Bytes) (s : ClipboardState) (q : Readable O a c s)
      → length c ≤ max_content_size
      → read_clipboard_content O a s ≡ (ok (some c), signal_deferred q.read)
  unfolding read_clipboard_content request_selection wait_for_selection
  read_clipboard_content_lem a c s q fits =
      let got = arrived s.incr_atom c q.event fits q.holds in
      simp (A.takes, q.has_owner, q.is_owner, q.notifies, got)
