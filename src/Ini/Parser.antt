-- ===== src/Ini/Parser.antt =====
-- `Parse`, and the methods of `KeyValueDict`. The two regular expressions and `strconv` are parameters.
use gossip_protocol.Base.{
  ℕ, Option, none, some, List, [], ◌∷◌, Bytes, Bytes-discrete, Comparable, Map, lookup, insert,
  contains, if◌then◌else◌, ◌>>=◌,
}

instance abbrev pub Bytes-Comparable : Comparable Bytes
Bytes-Comparable = record { dec = Bytes-discrete }

abbrev pub KeyValueDict : Type 0
KeyValueDict = Map Bytes Bytes

abbrev pub Config : Type 0
Config = Map Bytes KeyValueDict

-- `GetStringValue`: `none` is the error.
unfoldable pub get_string_value : Bytes → KeyValueDict → Option Bytes
get_string_value key dict = lookup key dict

-- `GetUint8Value` and the like for the other widths: `strconv.ParseUint(value, 10, bits)`.
unfoldable pub get_uint_value :
    {N : Type 0} → (ℕ → Bytes → Option N) → ℕ → Bytes → KeyValueDict → Option N
get_uint_value parse_uint bits key dict = do value ← lookup key dict; parse_uint bits value

-- `GetInt8Value` and the like: `strconv.ParseInt(value, 10, bits)`.
unfoldable pub get_int_value :
    {Z : Type 0} → (ℕ → Bytes → Option Z) → ℕ → Bytes → KeyValueDict → Option Z
get_int_value parse_int bits key dict = do value ← lookup key dict; parse_int bits value

-- What the parser knows between two lines.
pub record Parser : Type 0 where
  pub section_name : Bytes
  pub config : Config

unfoldable pub open_section : Bytes → Parser → Parser
open_section name p = record {
  section_name = name;
  config = if contains name p.config then p.config else insert name [] p.config;
}

-- The write to a missing section is one to a nil map: a panic.
unfoldable pub set_value : Bytes → Bytes → Parser → Option Parser
set_value key value p = elim (lookup p.section_name p.config) [
  | none ↦ none
  | some dict ↦ some (record p { config = insert p.section_name (insert key value dict) p.config })
]

module _ (section_re : Bytes → Option Bytes) (key_pair_re : Bytes → Option (Bytes × Bytes)) where
  unfoldable pub parse_line : Bytes → Parser → Option Parser
  unfolding open_section set_value
  parse_line line p = elim (section_re line) [
    | some name ↦ some (open_section name p)
    | none ↦ elim (key_pair_re line) [ some pair ↦ set_value pair.0 pair.1 p | none ↦ some p ]
  ]

  unfoldable pub parse_lines : List Bytes → Parser → Option Parser
  unfolding parse_line
  parse_lines [] p = some p
  parse_lines (line ∷ lines) p = parse_line line p >>= λ q. parse_lines lines q

  -- `Parse`: `none` is a panic.
  unfoldable pub parse : List Bytes → Option Config
  unfolding parse_lines
  parse lines = do p ← parse_lines lines (record { section_name = []; config = [] }); some p.config
