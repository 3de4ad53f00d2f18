-- ===== src/Ini/Tests.antt =====
-- A small file. Of the two expressions only what they say on lines without spaces and with keys of one
-- letter is here.
use gossip_protocol.Base.{
  ◌≡◌, refl, Option, none, some, List, [], ◌∷◌, Bytes, ite, ℕ_discrete, Bytes-discrete,
}
use gossip_protocol.Ini.Parser.{Config, parse}
use gossip_protocol.Ini.Sections.{value_of}
use gossip_protocol.Ini.Values.{IsSectioned, last_value, parse_lem, parse_crashes}

abbrev strip_bracket : Bytes → Option Bytes
strip_bracket (name ∷ close ∷ []) = ite (ℕ_discrete close 93) (some (name ∷ [])) none
strip_bracket _ = none

abbrev section_re : Bytes → Option Bytes
section_re [] = none
section_re (first ∷ rest) = ite (ℕ_discrete first 91) (strip_bracket rest) none

abbrev key_pair_re : Bytes → Option (Bytes × Bytes)
key_pair_re (key ∷ equals ∷ value) = ite (ℕ_discrete equals 61) (some (key ∷ [], value)) none
key_pair_re _ = none

abbrev pair_line : Bytes
pair_line = 97 ∷ 61 ∷ 49 ∷ []

abbrev section_line : Bytes
section_line = 91 ∷ 115 ∷ 93 ∷ []

abbrev lines : List Bytes
lines = section_line ∷ pair_line ∷ (97 ∷ 61 ∷ 50 ∷ []) ∷ []

lines-IsSectioned : IsSectioned section_re key_pair_re lines
unfolding IsSectioned ℕ_discrete
lines-IsSectioned = tt

misplaced : ¬ IsSectioned section_re key_pair_re (pair_line ∷ section_line ∷ [])
unfolding IsSectioned ℕ_discrete
misplaced h = h

last_wins : last_value section_re key_pair_re [] lines (115 ∷ []) (97 ∷ []) ≡ some (50 ∷ [])
unfolding last_value ℕ_discrete Bytes-discrete
last_wins = refl

parse_lem_example :
    (config : Config) × (parse section_re key_pair_re lines ≡ some config)
    × ((s key : Bytes) → value_of s key config ≡ last_value section_re key_pair_re [] lines s key)
parse_lem_example = parse_lem section_re key_pair_re lines lines-IsSectioned

parse_crashes_example : parse section_re key_pair_re (pair_line ∷ section_line ∷ []) ≡ none
parse_crashes_example =
    parse_crashes section_re key_pair_re (pair_line ∷ section_line ∷ []) misplaced
