-- ===== src/ClipboardIo.antt =====
-- src/pclipsync/clipboard_io.py: reading the clipboard of another application, whole or by the
-- INCR protocol.
mod Utf8
pub mod Fuel
pub mod Reads
pub mod Receive
unfoldable pub use Utf8.{encode_utf8}
use pclipsync.Base.{
  ℕ, zero, suc, ◌+◌, ◌*◌, Bool, true, false, Option, none, some, List, [], ◌∷◌, ◌++◌, ltb, ◌==◌,
  if◌then◌else◌, length,
}
use pclipsync.Exec.{
  Exn, other_error, is_exception, Result, ok, raise, Exec, pure, throw, gets, modify, catch,
  continue, ◌>>=◌, ◌>>◌,
}
use pclipsync.Protocol.{max_content_size}
use pclipsync.X11.{
  Bytes, Atom, WindowId, Event, Property, text, buffer, Request, delete_property, convert_selection,
  flush, Outside,
}
use pclipsync.State.{ClipboardState, Io, perform, selection_owner, full_property}
use pclipsync.Wait.{wait_for_event_type, wait_for_property_notify, any_selection_notify}

pub record PropertyReadResult : Type 0 where
  pub content : Option Bytes
  pub is_incr : Bool
  pub estimated_size : ℕ

-- Milliseconds.
abbrev pub clipboard_timeout : ℕ
clipboard_timeout = 2000

abbrev pub incr_chunk_timeout : ℕ
incr_chunk_timeout = 5000

-- `int.from_bytes(…, byteorder="little")`
unfoldable pub little_endian : Bytes → ℕ
little_endian [] = 0
little_endian (b ∷ bs) = b + 256 * little_endian bs

abbrev pub property_type : Property → Atom
property_type (text type s) = type
property_type (buffer type bs) = type

-- `bytes(prop.value)` is a TypeError where the value is a text.
abbrev pub size_of : Property → Result ℕ
size_of (text type s) = raise other_error
size_of (buffer type bs) = ok (little_endian bs)

-- The content of a value: a text is encoded, which may fail.
abbrev pub content_of : Property → Result Bytes
content_of (text type s) = encode_utf8 s
content_of (buffer type bs) = ok bs

abbrev pub lift : {A : Type 0} → Result A → Io A
lift r s = (r, s)

-- `except Exception: return …`
abbrev pub or_else : {A : Type 0} → A → Exn → Io A
or_else a x = if is_exception x then pure a else throw x

abbrev pub no_result : PropertyReadResult
no_result = record { content = none; is_incr = false; estimated_size = 0 }

-- What one chunk does to the buffer: the transfer goes on with a buffer, or ends with a result.
pub data Step : Type 0 where
  more : Bytes → Step
  done : Option Bytes → Step

unfoldable pub take_chunk : Bytes → Option Bytes → Step
take_chunk buf none = done none
take_chunk buf (some []) = done (some buf)
take_chunk buf (some (b ∷ bs)) =
    if ltb max_content_size (length (buf ++ b ∷ bs)) then done none else more (buf ++ b ∷ bs)

-- The main loop is told if events were deferred.
abbrev pub signal_deferred : ClipboardState → ClipboardState
signal_deferred s = elim s.deferred_events [ [] ↦ s | _ ∷ _ ↦ record s { x11_event = true } ]

module _ (O : Outside) where
  unfoldable pub read_property : Atom → Atom → Option Property → Io PropertyReadResult
  unfolding little_endian
  read_property prop_atom incr_atom none = pure no_result
  read_property prop_atom incr_atom (some prop) =
      if property_type prop == incr_atom
      then (do
        size ← lift (size_of prop)
        pure (record { content = none; is_incr = true; estimated_size = size }))
      else (do
        window ← gets (λ s. s.window)
        perform O (delete_property window prop_atom)
        perform O flush
        content ← lift (content_of prop)
        pure (record { content = some content; is_incr = false; estimated_size = 0 }))

  unfoldable pub read_selection_property : Atom → Atom → Io PropertyReadResult
  unfolding read_property
  read_selection_property prop_atom incr_atom =
      catch
        (do
          window ← gets (λ s. s.window)
          prop ← full_property O window prop_atom
          read_property prop_atom incr_atom prop)
        (or_else no_result)

  abbrev pub chunk_of : Option Property → Result Bytes
  chunk_of none = ok []
  chunk_of (some prop) = content_of prop

  unfoldable pub read_chunk_property : Atom → Io (Option Bytes)
  read_chunk_property prop_atom =
      catch
        (do
          window ← gets (λ s. s.window)
          prop ← full_property O window prop_atom
          perform O (delete_property window prop_atom)
          perform O flush
          chunk ← lift (chunk_of prop)
          pure (some chunk))
        (or_else none)

  unfoldable pub next_chunk : Atom → Bytes → Option Event → Io Step
  unfolding read_chunk_property
  next_chunk prop_atom buf none = pure (done none)
  next_chunk prop_atom buf (some e) = do
    chunk ← read_chunk_property prop_atom
    pure (take_chunk buf chunk)

  -- The loop over the chunks. Each round takes an event off the polls, so their number bounds it.
  unfoldable pub chunk_loop : ℕ → Atom → Bytes → Io (Option Bytes)
  chunk_loop zero prop_atom buf = throw other_error
  chunk_loop (suc fuel) prop_atom buf = do
    window ← gets (λ s. s.window)
    event ← wait_for_property_notify window prop_atom incr_chunk_timeout
    step ← next_chunk prop_atom buf event
    elim step [ more buf' ↦ chunk_loop fuel prop_atom buf' | done r ↦ pure r ]

  -- The handshake deletes the property, and the chunks follow.
  unfoldable pub handle_incr_transfer : Atom → Io (Option Bytes)
  unfolding chunk_loop
  handle_incr_transfer prop_atom = do
    window ← gets (λ s. s.window)
    perform O (delete_property window prop_atom)
    perform O flush
    rounds ← gets (λ s. suc (length s.display.polls))
    chunk_loop rounds prop_atom []

  unfoldable pub selection_arrived : Atom → Atom → Option Event → Io (Option Bytes)
  unfolding handle_incr_transfer read_selection_property
  selection_arrived prop_atom incr_atom none = pure none
  selection_arrived prop_atom incr_atom (some e) = do
    result ← read_selection_property prop_atom incr_atom
    if result.is_incr then handle_incr_transfer prop_atom else pure result.content

  unfoldable pub wait_for_selection : Atom → Atom → Io (Option Bytes)
  unfolding selection_arrived
  wait_for_selection prop_atom incr_atom = do
    event ← wait_for_event_type any_selection_notify clipboard_timeout
    selection_arrived prop_atom incr_atom event

  unfoldable pub request_selection : Atom → Io (Option Bytes)
  unfolding wait_for_selection
  request_selection selection_atom = do
    window ← gets (λ s. s.window)
    perform O (convert_selection window selection_atom O.utf8_atom O.prop_atom)
    perform O flush
    incr_atom ← gets (λ s. s.incr_atom)
    content ← wait_for_selection O.prop_atom incr_atom
    modify signal_deferred
    pure content

  unfoldable pub read_clipboard_content : Atom → Io (Option Bytes)
  unfolding request_selection
  read_clipboard_content selection_atom =
      catch
        (do
          owner ← selection_owner O selection_atom
          if owner == O.none_atom then pure none else request_selection selection_atom)
        (or_else none)
