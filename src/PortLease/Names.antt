-- ===== src/PortLease/Names.antt =====
-- src/features/serial/application/port-lease-registry.ts: the checks on identifiers and names, and the
-- canonical form of a Unix port. `trim` is that of JavaScript strings.
use bbcom.Base.{
  ℕ, Bool, true, false, not, ◌&&◌, ◌||◌, List, [], ◌∷◌, ◌++◌, Result, ok, err, ◌>>=◌, ltb, leb,
  ◌==◌, if◌then◌else◌, length,
}
use bbcom.Base.Text.{Text, text_eq}

-- `TypeError`
pub data Invalid : Type 0 where
  type_error : Invalid

unfoldable pub is_space : ℕ → Bool
is_space c =
    (leb 9 c && leb c 13)
    || c == 0x20
    || c == 0xa0
    || c == 0x1680
    || (leb 0x2000 c && leb c 0x200a)
    || c == 0x2028
    || c == 0x2029
    || c == 0x202f
    || c == 0x205f
    || c == 0x3000
    || c == 0xfeff

unfoldable pub trim_start : Text → Text
unfolding is_space
trim_start [] = []
trim_start (c ∷ s) = if is_space c then trim_start s else c ∷ s

unfoldable pub trim_end : Text → Text
unfolding is_space
trim_end [] = []
trim_end (c ∷ s) = elim (trim_end s) [ [] ↦ if is_space c then [] else c ∷ [] | d ∷ t ↦ c ∷ d ∷ t ]

unfoldable pub trim : Text → Text
unfolding trim_start trim_end
trim s = trim_end (trim_start s)

unfoldable pub contains_control_character : Text → Bool
contains_control_character [] = false
contains_control_character (c ∷ s) =
    (leb c 0x1f || (leb 0x7f c && leb c 0x9f)) || contains_control_character s

unfoldable pub is_alphanumeric : ℕ → Bool
is_alphanumeric c =
    (leb b'A' c && leb c b'Z') || (leb b'a' c && leb c b'z') || (leb b'0' c && leb c b'9')

unfoldable pub id_rest : Text → Bool
unfolding is_alphanumeric
id_rest [] = true
id_rest (c ∷ s) =
    (is_alphanumeric c || c == b'.' || c == b'_' || c == b':' || c == b'-') && id_rest s

-- `OPAQUE_ID.test(value)`
unfoldable pub is_opaque_id : Text → Bool
unfolding is_alphanumeric id_rest
is_opaque_id [] = false
is_opaque_id (c ∷ s) = is_alphanumeric c && id_rest s

unfoldable pub validate_opaque_id : Text → ℕ → Result Invalid Text
validate_opaque_id value maximum =
    if length value == 0
      || ltb maximum (length value)
      || not (text_eq value (trim value))
      || not (is_opaque_id value)
    then err type_error
    else ok value

unfoldable pub validate_session_name : Text → Result Invalid Text
validate_session_name value =
    let normalized = trim value in
    if length normalized == 0
      || ltb 128 (length normalized)
      || contains_control_character normalized
    then err type_error
    else ok normalized

unfoldable pub validate_port_text : Text → Result Invalid Text
validate_port_text value =
    if length value == 0
      || ltb 512 (length value)
      || not (text_eq value (trim value))
      || contains_control_character value
    then err type_error
    else ok value

-- `s.split('/')`, the part that is being read first.
unfoldable pub split_slash : Text → List Text
split_slash [] = [] ∷ []
split_slash (c ∷ s) = elim (split_slash s) [
  | [] ↦ [] ∷ []
  | part ∷ parts ↦ if c == b'/' then [] ∷ part ∷ parts else (c ∷ part) ∷ parts
]

abbrev dot : Text
dot = b'.' ∷ []

abbrev dot_dot : Text
dot_dot = b'.' ∷ b'.' ∷ []

abbrev dev : Text
dev = b'd' ∷ b'e' ∷ b'v' ∷ []

-- The loop over the parts.
unfoldable pub unix_parts : List Text → Result Invalid (List Text)
unix_parts [] = ok []
unix_parts (part ∷ parts) = do
  rest ← unix_parts parts
  if text_eq part dot_dot
      then err type_error
      else ok (if length part == 0 || text_eq part dot then rest else part ∷ rest)

-- `/` before each part: `/${parts.join('/')}` of at least one part.
unfoldable pub join_parts : List Text → Text
join_parts [] = []
join_parts (part ∷ parts) = b'/' ∷ part ++ join_parts parts

-- The part of `canonicalizeUnixPort` below the test of the prefix; `path` is the port without its
-- first character.
unfoldable pub unix_path : Text → Result Invalid Text
unix_path path = do
  parts ← unix_parts (split_slash path)
  elim parts [
    | [] ↦ err type_error
    | first ∷ others ↦
        if text_eq first dev && ltb 0 (length others)
        then ok (join_parts (first ∷ others))
        else err type_error
  ]

-- `port.startsWith('/dev/')`
abbrev pub starts_with_dev : Text → Bool
starts_with_dev (a ∷ b ∷ c ∷ d ∷ e ∷ s) =
    a == b'/' && b == b'd' && c == b'e' && d == b'v' && e == b'/'
starts_with_dev _ = false

abbrev rest_of : Text → Text
rest_of [] = []
rest_of (c ∷ s) = s

unfoldable pub canonicalize_unix_port : Text → Result Invalid Text
canonicalize_unix_port port =
    if starts_with_dev port then unix_path (rest_of port) else err type_error
