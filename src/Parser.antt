-- ===== src/Parser.antt =====
-- src/lib/protocol-parser.ts: the parser that cuts a stream of bytes into frames.
-- A configuration stands as `validateAndCloneConfig` returns it, with natural numbers. The limit on pending
-- bytes is a field that the constructor computes from a finite option.
pub mod Search
pub mod Window
pub mod Consume
pub mod Cuts
pub mod Feed
pub mod Rounds
mod Tests
use bbcom.Base.{
  ℕ, zero, suc, ◌+◌, ◌-◌, ◌*◌, min, max, Bool, true, false, not, ◌&&◌, ◌||◌, Option, none, some,
  List, [], ◌∷◌, ◌++◌, Result, ok, err, ltb, leb, ◌==◌, if◌then◌else◌, length, take, drop,
}
use Search.{Bytes, index_of_subarray_bytes}

-- `1 | 2 | 4`
pub data LengthSize : Type 0 where
  one_byte two_bytes four_bytes : LengthSize

abbrev pub size_of : LengthSize → ℕ
size_of one_byte = 1
size_of two_bytes = 2
size_of four_bytes = 4

pub record LengthConfig : Type 0 where
  pub length_offset : ℕ
  pub length_size : LengthSize
  pub big_endian : Bool
  pub length_adjust : ℕ

pub data ByteParserConfig : Type 0 where
  delimiter_config : (delimiter : Bytes) (include_delimiter : Bool) → ByteParserConfig
  length_config : LengthConfig → ByteParserConfig
  fixed_config : (frame_size : ℕ) → ByteParserConfig

pub record ParsedFrame : Type 0 where
  pub data_bytes : Bytes
  pub offset : ℕ

abbrev pub default_max_pending_bytes : ℕ
default_max_pending_bytes = 1024 * 1024

abbrev pub max_length_frame_bytes : ℕ
max_length_frame_bytes = default_max_pending_bytes

abbrev pub buffer_compact_threshold : ℕ
buffer_compact_threshold = 64 * 1024

pub record ProtocolParser : Type 0 where
  pub buffer : Bytes
  pub start : ℕ
  pub end : ℕ
  pub absolute_start_offset : ℕ
  pub delimiter_search_offset : ℕ
  pub max_pending_bytes : ℕ
  pub discarded_bytes : ℕ
  pub overflow_events : ℕ
  pub resync_events : ℕ
  pub config : ByteParserConfig

-- The constructor's limit, of a requested one.
pub max_pending_of : ByteParserConfig → ℕ → ℕ
max_pending_of (delimiter_config delimiter include_delimiter) requested =
    min default_max_pending_bytes (max (max 1 requested) (length delimiter))
max_pending_of _ requested = default_max_pending_bytes

abbrev pub new_parser : ByteParserConfig → ℕ → ProtocolParser
new_parser config requested = record {
  buffer = [];
  start = 0;
  end = 0;
  absolute_start_offset = 0;
  delimiter_search_offset = 0;
  max_pending_bytes = max_pending_of config requested;
  discarded_bytes = 0;
  overflow_events = 0;
  resync_events = 0;
  config = config;
}

unfoldable pub pending : ProtocolParser → ℕ
pending p = p.end - p.start

-- `buffer.subarray(start, end)`
unfoldable pub view : ProtocolParser → Bytes
unfolding pending
view p = take (pending p) (drop p.start p.buffer)

-- `TypedArray.set` with a source that fits.
unfoldable pub overwrite : Bytes → ℕ → Bytes → Bytes
overwrite target at source = take at target ++ source ++ drop (at + length source) target

unfoldable pub zero_bytes : ℕ → Bytes
zero_bytes zero = []
zero_bytes (suc n) = 0 ∷ zero_bytes n

-- `while (capacity < need) capacity *= 2`; the capacity is positive and grows in every round, so that
-- `need` rounds are enough.
unfoldable pub grow : ℕ → ℕ → ℕ → ℕ
grow zero capacity need = capacity
grow (suc rounds) capacity need =
    let more = grow rounds (capacity * 2) need in if ltb capacity need then more else capacity

-- `Math.max(64, this.buffer.length || 64)`, grown.
unfoldable pub capacity_for : ℕ → ℕ → ℕ
unfolding grow
capacity_for size need = grow need (max 64 (if size == 0 then 64 else size)) need

unfoldable pub append : ProtocolParser → Bytes → ProtocolParser
unfolding pending view overwrite zero_bytes capacity_for
append p input =
    let live = pending p in
    if leb (length input) (length p.buffer - p.end)
    then record p { buffer = overwrite p.buffer p.end input; end = p.end + length input }
    else (if ltb 0 p.start && leb (live + length input) (length p.buffer)
        then record p {
          buffer = overwrite (overwrite p.buffer 0 (view p)) live input;
          start = 0;
          end = live + length input;
        }
        else record p {
          buffer =
              overwrite
                (overwrite (zero_bytes (capacity_for (length p.buffer) (live + length input))) 0
                  (view p))
                live input;
          start = 0;
          end = live + length input;
        })

unfoldable pub consume : ProtocolParser → ℕ → ProtocolParser
consume p count = record p {
  start = p.start + count;
  absolute_start_offset = p.absolute_start_offset + count;
}

unfoldable pub compact_buffer : ProtocolParser → ProtocolParser
unfolding pending view overwrite
compact_buffer p =
    if p.start == 0
    then p
    else (if leb p.end p.start
        then record p { start = 0; end = 0; delimiter_search_offset = p.absolute_start_offset }
        else (if leb buffer_compact_threshold p.start || leb (pending p) p.start
            then record p { buffer = overwrite p.buffer 0 (view p); start = 0; end = pending p }
            else p))

-- Without a delimiter in it, a full window keeps only what can begin one.
unfoldable pub enforce_limit : ByteParserConfig → ProtocolParser → ProtocolParser
unfolding pending consume
enforce_limit (delimiter_config delimiter include_delimiter) p =
    let discard = pending p - (length delimiter - 1) in
    let q = consume p discard in
    if leb (pending p) p.max_pending_bytes then p else record q {
      discarded_bytes = q.discarded_bytes + discard;
      overflow_events = q.overflow_events + 1;
      resync_events = q.resync_events + 1;
      delimiter_search_offset = max q.delimiter_search_offset q.absolute_start_offset;
    }
enforce_limit _ p = p

unfoldable pub enforce_pending_limit : ProtocolParser → ProtocolParser
unfolding enforce_limit
enforce_pending_limit p = enforce_limit p.config p

-- A frame of the first `size` bytes, with `count` bytes consumed.
abbrev pub emit : ProtocolParser → ℕ → ℕ → Option ParsedFrame × ProtocolParser
emit p size count = (
  some (record { data_bytes = take size (view p); offset = p.absolute_start_offset }),
  consume p count,
)

unfoldable pub extract_fixed : ProtocolParser → ℕ → Option ParsedFrame × ProtocolParser
unfolding view consume
extract_fixed p size = if ltb (length (view p)) size then (none, p) else emit p size size

-- The part of `extractOne` behind the search for the delimiter.
unfoldable pub extract_match :
    ProtocolParser → Bytes → Bool → Option ℕ → Option ParsedFrame × ProtocolParser
unfolding view consume
extract_match p delimiter include_delimiter none = (
  none,
  record p {
    delimiter_search_offset = p.absolute_start_offset + (length (view p) + 1 - length delimiter);
  },
)
extract_match p delimiter include_delimiter (some match_at) =
    let data_length = if include_delimiter then match_at + length delimiter else match_at in
    let (frame, q) = emit p data_length (match_at + length delimiter) in
    if ltb p.max_pending_bytes data_length
    then (none, p)
    else (frame, record q { delimiter_search_offset = q.absolute_start_offset })

unfoldable pub extract_delimiter :
    ProtocolParser → Bytes → Bool → Option ParsedFrame × ProtocolParser
unfolding view extract_match
extract_delimiter p delimiter include_delimiter = extract_match p delimiter include_delimiter (
    index_of_subarray_bytes (view p) delimiter
      (p.delimiter_search_offset - p.absolute_start_offset))

unfoldable pub big_endian_value : ℕ → Bytes → ℕ
big_endian_value acc [] = acc
big_endian_value acc (b ∷ bytes) = big_endian_value (acc * 256 + b) bytes

unfoldable pub little_endian_value : Bytes → ℕ
little_endian_value [] = 0
little_endian_value (b ∷ bytes) = little_endian_value bytes * 256 + b

-- The value of the length field, when the header is there.
unfoldable pub length_value : LengthConfig → Bytes → ℕ
unfolding big_endian_value little_endian_value
length_value c bytes =
    let field = take (size_of c.length_size) (drop c.length_offset bytes) in
    if c.big_endian then big_endian_value 0 field else little_endian_value field

unfoldable pub extract_length : ProtocolParser → LengthConfig → Option ParsedFrame × ProtocolParser
unfolding view consume length_value
extract_length p c =
    let header_end = c.length_offset + size_of c.length_size in
    let total = c.length_adjust + length_value c (view p) in
    if ltb (length (view p)) header_end
    then (none, p)
    else (if ltb total header_end || ltb max_length_frame_bytes total
        then (let q = consume p 1 in
            (
              none,
              record q {
                discarded_bytes = q.discarded_bytes + 1;
                resync_events = q.resync_events + 1;
              },
            ))
        else (if ltb (length (view p)) total then (none, p) else emit p total total))

unfoldable pub extract_with :
    ByteParserConfig → ProtocolParser → Option ParsedFrame × ProtocolParser
unfolding extract_fixed extract_delimiter extract_length
extract_with (fixed_config frame_size) p = extract_fixed p frame_size
extract_with (delimiter_config delimiter include_delimiter) p =
    extract_delimiter p delimiter include_delimiter
extract_with (length_config c) p = extract_length p c

unfoldable pub extract_one : ProtocolParser → Option ParsedFrame × ProtocolParser
unfolding extract_with
extract_one p = extract_with p.config p

abbrev pub prepend : Option ParsedFrame → List ParsedFrame → List ParsedFrame
prepend none frames = frames
prepend (some frame) frames = frame ∷ frames

-- The loop of `drain`. A round that moves `start` consumes a pending byte, so that one round more than
-- there are pending bytes is enough.
unfoldable pub drain_rounds : ℕ → ProtocolParser → List ParsedFrame × ProtocolParser
unfolding extract_one
drain_rounds zero p = ([], p)
drain_rounds (suc rounds) p =
    let (frame, q) = extract_one p in
    let (frames, r) = drain_rounds rounds q in
    if q.start == p.start then (prepend frame [], q) else (prepend frame frames, r)

unfoldable pub drain : ProtocolParser → List ParsedFrame × ProtocolParser
unfolding drain_rounds pending
drain p = drain_rounds (suc (pending p)) p

-- The loop of `feed` in delimiter mode. A round takes a byte of the input at least, so that a round for
-- each byte is enough.
unfoldable pub feed_slices : ℕ → ProtocolParser → Bytes → List ParsedFrame × ProtocolParser
unfolding pending append drain enforce_pending_limit compact_buffer
feed_slices zero p input = ([], p)
feed_slices (suc rounds) p [] = ([], p)
feed_slices (suc rounds) p (b ∷ input) =
    let size = min (length (b ∷ input)) (max 1 (p.max_pending_bytes - pending p + 1)) in
    let (frames, q) = drain (append p (take size (b ∷ input))) in
    let (more, r) =
      feed_slices rounds (compact_buffer (enforce_pending_limit q)) (drop size (b ∷ input)) in
    (frames ++ more, r)

unfoldable pub feed_with :
    ByteParserConfig → ProtocolParser → Bytes → List ParsedFrame × ProtocolParser
unfolding append drain compact_buffer feed_slices
feed_with (delimiter_config delimiter include_delimiter) p input =
    feed_slices (length input) p input
feed_with _ p input = let (frames, q) = drain (append p input) in (frames, compact_buffer q)

unfoldable pub feed : ProtocolParser → Bytes → List ParsedFrame × ProtocolParser
unfolding feed_with
feed p [] = ([], p)
feed p (b ∷ input) = feed_with p.config p (b ∷ input)

pub reset : ProtocolParser → ProtocolParser
reset p = record p {
  buffer = [];
  start = 0;
  end = 0;
  absolute_start_offset = 0;
  delimiter_search_offset = 0;
  discarded_bytes = 0;
  overflow_events = 0;
  resync_events = 0;
}
