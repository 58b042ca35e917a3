-- ===== src/Parser/Tests.antt =====
-- The parser at concrete inputs.
use bbcom.Base.{suc, ◌+◌, ℕ, ◌≡◌, refl, arith, List, [], ◌∷◌, false}
use bbcom.Parser.{
  ProtocolParser, ByteParserConfig, delimiter_config, fixed_config, new_parser, pending, view,
  overwrite, zero_bytes, grow, capacity_for, append, consume, compact_buffer, enforce_limit,
  enforce_pending_limit, extract_match, extract_delimiter, extract_with, extract_one, drain_rounds,
  drain, feed_slices, feed_with, feed, max_pending_of,
}
use bbcom.Parser.Search.{Bytes, index_of_subarray_bytes, search_from, matches_at, middle_matches}
use bbcom.Parser.Window.{Extends, append-Extends}
use bbcom.Parser.Cuts.{Cuts}
use bbcom.Parser.Rounds.{drain_complete}
use bbcom.Parser.Feed.{feed_all, joined, feed_all-Cuts}

-- A line that ends between two inputs.
abbrev crlf : ByteParserConfig
crlf = delimiter_config (13 ∷ 10 ∷ []) false

abbrev lines : List Bytes
lines = (65 ∷ 13 ∷ []) ∷ (10 ∷ 66 ∷ []) ∷ []

feed_all-Cuts_example :
    Cuts 0 (65 ∷ 13 ∷ 10 ∷ 66 ∷ []) (record { data_bytes = 65 ∷ []; offset = 0 } ∷ []) 3 (66 ∷ [])
    × (◌≡◌ {A = ℕ} 4 4)
unfolding joined feed_all feed feed_with feed_slices drain drain_rounds extract_one extract_with
    extract_delimiter extract_match append consume compact_buffer enforce_pending_limit
    enforce_limit pending view overwrite zero_bytes grow capacity_for index_of_subarray_bytes
    search_from matches_at middle_matches max_pending_of
feed_all-Cuts_example = feed_all-Cuts crlf 16 lines

-- Two bytes at the end of a buffer, which are moved to its start.
abbrev at_the_end : ProtocolParser
at_the_end = record (new_parser crlf 16) {
  buffer = 9 ∷ 9 ∷ 9 ∷ 1 ∷ 2 ∷ [];
  start = 3;
  end = 5;
  absolute_start_offset = 3;
}

append-Extends_example : Extends at_the_end (7 ∷ 8 ∷ []) (append at_the_end (7 ∷ 8 ∷ []))
append-Extends_example =
    append-Extends at_the_end (7 ∷ 8 ∷ [])
      (record { ordered = omega arith; in_buffer = omega arith })

moved :
    append at_the_end (7 ∷ 8 ∷ [])
    ≡ record at_the_end { buffer = 1 ∷ 2 ∷ 7 ∷ 8 ∷ 2 ∷ []; start = 0; end = 4 }
unfolding append pending view overwrite max_pending_of
moved = refl

-- Records of one byte: both pending bytes are frames.
abbrev two_records : ProtocolParser
two_records = record (new_parser (fixed_config 1) 16) {
  buffer = 9 ∷ 9 ∷ 9 ∷ 1 ∷ 2 ∷ [];
  start = 3;
  end = 5;
  absolute_start_offset = 3;
}

drain_complete_example :
    drain_rounds (suc (pending two_records) + 5) two_records ≡ drain two_records
drain_complete_example =
    drain_complete two_records 5 (record { ordered = omega arith; in_buffer = omega arith })
