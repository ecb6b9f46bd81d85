-- ===== src/Files.antt =====
-- StreamingFileHandler.h and StreamingFileHandler.cpp, on the three sending operations of
-- StreamingHTTPHandler-inl.h. The tasks that are queued on the event base are kept in their order.
pub mod Buffers
pub mod Sanitizing
pub mod Reading
pub mod Answers
pub mod Serving
pub mod Bytes
pub mod Endless
pub mod Interleaved
use nozomi.Common.{
  ℕ, zero, suc, Bool, true, false, not, ◌&&◌, Option, none, some, List, [], ◌∷◌, map, ltb, leb,
  if◌then◌else◌, value_or, length, take, drop, Str, codes, str_eq, Result, ok, ◌>>=◌, ◌>>◌, ℤ, pos,
  negsuc, is_positive, min, ◌-◌,
}
use mathlib.Core.Option
use nozomi.Libs.{Libs}
use nozomi.Streaming.{
  StreamingHandler, make_streaming_handler, send_response_headers, send_body, send_eof, head_length,
}
use nozomi.Http.{Request, Response, get_header, response_of_status}

-- class StreamingFileHandler, with its base class.
pub record FileHandler (L : Libs) : Type 0 where
  pub path : L.FilePath
  pub if_modified_since : ℤ
  pub read_buffer_size : ℕ
  pub raw_path : Str
  pub base : StreamingHandler L

-- `a >= b` on `time_t`
unfoldable pub geb : ℤ → ℤ → Bool
geb (pos a) (pos b) = leb b a
geb (pos a) (negsuc b) = true
geb (negsuc a) (pos b) = false
geb (negsuc a) (negsuc b) = leb a b

module _ (L : Libs) where
  -- The constructor.
  unfoldable pub make_file_handler : L.FilePath → ℕ → Option L.EventBase → FileHandler L
  make_file_handler base_path read_buffer_size socket_evb = record {
    path = base_path;
    if_modified_since = pos 0;
    read_buffer_size = read_buffer_size;
    raw_path = [];
    base = make_streaming_handler L socket_evb;
  }

  -- The loop of `sanitizePath`.
  unfoldable pub add_components : List Str → L.FilePath → L.FilePath
  add_components [] ret = ret
  add_components (component ∷ rest) ret =
      if str_eq component (codes "..")
      then add_components rest (L.remove_filename ret)
      else if str_eq component (codes ".")
      then add_components rest ret
      else add_components rest (L.append ret component)

  unfoldable pub sanitize_path : Str → L.FilePath
  sanitize_path path = add_components (L.components (L.to_path path)) L.empty_path

  unfoldable pub set_request_args : Str → FileHandler L → FileHandler L
  set_request_args path handler = record handler { raw_path = path }

  unfoldable pub on_request_received : Request L → FileHandler L → FileHandler L
  on_request_received request handler = record handler {
    path = L.join handler.path (sanitize_path handler.raw_path);
    if_modified_since = elim (get_header L request.message L.if_modified_since) [
      | none ↦ handler.if_modified_since
      | some date ↦ value_or (L.parse_date date) handler.if_modified_since
    ];
  }

  -- A call of a function of the base class.
  abbrev pub on_base : (StreamingHandler L → StreamingHandler L) → FileHandler L → FileHandler L
  on_base f handler = record handler { base = f handler.base }

  -- The buffer of one round of the loop, where `read` is what `fin.read` puts into it: all of its room
  -- becomes data, and what was not read is cut off.
  unfoldable pub read_buffer : ℕ → Str → L.IOBuf
  read_buffer size read =
      let created = L.create size in
      let buf =
        if ltb (head_length L created) size
        then L.append_room created (L.tailroom created)
        else created in
      let filled = L.write_data buf read in
      if ltb (length read) size then L.trim_end filled (size - length read) else filled

  -- The loop `while (!fin.eof())`: `rest` is what the stream has not read. A short read sets `eof`, but
  -- one that fails does not. It is `none` when the fuel runs out.
  unfoldable pub read_loop : ℕ → Str → Bool → FileHandler L → Option (FileHandler L)
  unfolding read_buffer
  read_loop zero rest fails handler = none
  read_loop (suc fuel) rest fails handler =
      let n = handler.read_buffer_size in
      let read = min n (length rest) in
      let sent = on_base (send_body L (read_buffer n (take read rest))) handler in
      let more = read_loop fuel (drop read rest) fails sent in
      if ltb (length rest) n && not fails then some sent else more

  -- The function that `onEOM` runs on the executor.
  unfoldable pub send_file : ℕ → FileHandler L → Option (FileHandler L)
  unfolding read_loop
  send_file fuel handler = elim (L.contents handler.path) [
    | none ↦ some (on_base (send_response_headers L (response_of_status L 404)) handler)
    | some stream ↦
        read_loop fuel stream.text stream.fails
          (on_base (send_response_headers L (response_of_status L 200)) handler)
  ]

  -- `!ec && ifModifiedSince_ > 0 && ifModifiedSince_ >= lastModifiedTime`
  unfoldable pub is_unmodified : FileHandler L → Bool
  is_unmodified handler = elim (L.last_write_time handler.path) [
    | none ↦ false
    | some last_modified_time ↦
        is_positive handler.if_modified_since && geb handler.if_modified_since last_modified_time
  ]

  -- StreamingFileHandler::onEOM, with the chain of futures run to its end: `sendEOF` follows the
  -- function on the executor. An exception leaves a `noexcept` function.
  unfoldable pub on_eom : ℕ → FileHandler L → Result (Option (FileHandler L))
  on_eom fuel handler = do
    regular ← L.is_regular_file handler.path
    ok (
        if not regular
        then some (
            on_base (send_eof L)
              (on_base (send_response_headers L (response_of_status L 404)) handler))
        else if is_unmodified handler
        then some (
            on_base (send_eof L)
              (on_base (send_response_headers L (response_of_status L 304)) handler))
        else Option.map (on_base (send_eof L)) (send_file fuel handler))
