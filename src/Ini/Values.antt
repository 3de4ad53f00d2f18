-- ===== src/Ini/Values.antt =====
-- What the values of a parsed configuration are.
use gossip_protocol.Base.{
  ◌≡◌, refl, sym, ◌∙◌, true, Option, none, some, List, [], ◌∷◌, Bytes, Bytes-discrete, lookup,
  contains, ite, Option-cases, inl, inr, ap,
}
use gossip_protocol.Ini.Parser.{
  Bytes-Comparable, Config, Parser, open_section, set_value, parse_line, parse_lines, parse,
}
use gossip_protocol.Ini.Sections.{
  value_of, or_else, or_else_assoc, open_section-value_of, open_section-contains,
  set_value-value_of,
}

module _ (section_re : Bytes → Option Bytes) (key_pair_re : Bytes → Option (Bytes × Bytes)) where
  -- The section that a line is in, or that it begins.
  abbrev name_after : Bytes → Bytes → Bytes
  name_after current line = elim (section_re line) [ some name ↦ name | none ↦ current ]

  -- What a line of the section `current` assigns to a key of the section `s`.
  abbrev assigned : Bytes → Bytes → Bytes → Bytes → Option Bytes
  assigned current line s key = elim (section_re line) [
    | some name ↦ none
    | none ↦ elim (key_pair_re line) [
      | none ↦ none
      | some pair ↦
          ite (Bytes-discrete s current) (ite (Bytes-discrete key pair.0) (some pair.1) none) none
    ]
  ]

  -- The last assignment of the lines.
  unfoldable pub last_value : Bytes → List Bytes → Bytes → Bytes → Option Bytes
  last_value current [] s key = none
  last_value current (line ∷ lines) s key =
      or_else (last_value (name_after current line) lines s key) (assigned current line s key)

  -- The first line that one of the expressions recognises begins a section.
  unfoldable pub IsSectioned : List Bytes → Type 0
  IsSectioned [] = Unit
  IsSectioned (line ∷ lines) = elim (section_re line) [
    | some name ↦ Unit
    | none ↦ elim (key_pair_re line) [ some pair ↦ ⊥ | none ↦ IsSectioned lines ]
  ]

  -- After a line `p` has become `q`.
  abbrev Read : Bytes → Parser → Parser → Type 0
  Read line p q =
      (parse_line section_re key_pair_re line p ≡ some q)
      × (q.section_name ≡ name_after p.section_name line)
      × (contains q.section_name q.config ≡ true)
      × ((s key : Bytes)
          → value_of s key q.config
            ≡ or_else (assigned p.section_name line s key) (value_of s key p.config))

  parse_line-Read :
      (line : Bytes) (p : Parser)
      → contains p.section_name p.config ≡ true
      → (q : Parser) × Read line p q
  unfolding parse_line
  parse_line-Read line p h = elim (Option-cases (section_re line)) [
    | inr begins ↦ (
      open_section begins.0 p,
      (
        rw (begins.1, parse_line) refl,
        rw (begins.1, name_after) refl,
        open_section-contains begins.0 p,
        λ s key. rw (begins.1, assigned) (open_section-value_of begins.0 s key p),
      ),
    )
    | inl goes_on ↦ elim (Option-cases (key_pair_re line)) [
      | inl neither ↦ (
        p,
        (
          rw (goes_on, neither, parse_line) refl,
          rw (goes_on, name_after) refl,
          h,
          λ s key. rw (goes_on, neither, assigned) refl,
        ),
      )
      | inr pair ↦
          let (q, sets, same, listed, values) = set_value-value_of pair.0.0 pair.0.1 p h in
          (
            q,
            (
              rw (goes_on, pair.1, parse_line) sets,
              rw (goes_on, name_after) same,
              listed,
              λ s key. rw (goes_on, pair.1, assigned) (values s key),
            ),
          )
    ]
  ]

  parse_lines-value_of :
      (lines : List Bytes) (p : Parser)
      → contains p.section_name p.config ≡ true
      → (q : Parser) × (parse_lines section_re key_pair_re lines p ≡ some q)
        × ((s key : Bytes)
            → value_of s key q.config
              ≡ or_else (last_value p.section_name lines s key) (value_of s key p.config))
  unfolding parse_lines last_value
  parse_lines-value_of [] p h = (p, refl, λ s key. refl)
  parse_lines-value_of (line ∷ lines) p h =
      let (q, (reads, name, listed, values)) = parse_line-Read line p h in
      let (r, rest, all) = parse_lines-value_of lines q listed in
      (
        r,
        rw (reads, parse_lines) rest,
        λ s key.
            all s key
            ∙ ap (λ n. or_else (last_value n lines s key) (value_of s key q.config)) name
            ∙ ap (λ o. or_else (last_value (name_after p.section_name line) lines s key) o)
                (values s key)
            ∙ sym (
                or_else_assoc (last_value (name_after p.section_name line) lines s key)
                  (assigned p.section_name line s key) (value_of s key p.config)),
      )

  abbrev start : Parser
  start = record { section_name = []; config = [] }

  abbrev Parsed : List Bytes → Type 0
  Parsed lines =
      (q : Parser) × (parse_lines section_re key_pair_re lines start ≡ some q)
      × ((s key : Bytes) → value_of s key q.config ≡ last_value [] lines s key)

  or_else-none : (a : Option Bytes) → or_else a none ≡ a
  or_else-none none = refl
  or_else-none (some x) = refl

  parse_lines-Parsed : (lines : List Bytes) → IsSectioned lines → Parsed lines
  unfolding IsSectioned parse_lines last_value value_of lookup
  parse_lines-Parsed [] h = (start, refl, λ s key. refl)
  parse_lines-Parsed (line ∷ lines) h = elim (Option-cases (section_re line)) [
    | inr begins ↦
        let (r, rest, all) =
          parse_lines-value_of lines (open_section begins.0 start)
            (open_section-contains begins.0 start) in
        (
          r,
          rw (begins.1, parse_line) rest,
          λ s key.
              rw (begins.1, name_after, assigned)
                (all s key
                  ∙ ap (λ o. or_else (last_value begins.0 lines s key) o)
                      (open_section-value_of begins.0 s key start)),
        )
    | inl goes_on ↦ elim (Option-cases (key_pair_re line)) [
      | inl neither ↦
          let later : IsSectioned lines = rw (goes_on, neither, IsSectioned) at h in
          let (r, rest, all) = parse_lines-Parsed lines later in
          (
            r,
            rw (goes_on, neither, parse_line) rest,
            λ s key.
                rw (goes_on, neither, name_after, assigned)
                  (all s key ∙ sym (or_else-none (last_value [] lines s key))),
          )
      | inr pair ↦ absurd (rw (goes_on, pair.1, IsSectioned) at h)
    ]
  ]

  -- If the first line that is recognised begins a section, then `Parse` returns, and the value of a key
  -- in a section is the last one that a line of the section assigns to the key.
  pub parse_lem :
      (lines : List Bytes)
      → IsSectioned lines
      → (config : Config) × (parse section_re key_pair_re lines ≡ some config)
        × ((s key : Bytes) → value_of s key config ≡ last_value [] lines s key)
  unfolding parse
  parse_lem lines h =
      let (q, parses, values) = parse_lines-Parsed lines h in (q.config, rw (parses) refl, values)

  parse_lines-eq_none :
      (lines : List Bytes)
      → ¬ IsSectioned lines
      → parse_lines section_re key_pair_re lines start ≡ none
  unfolding IsSectioned parse_lines lookup
  parse_lines-eq_none [] h = absurd (h tt)
  parse_lines-eq_none (line ∷ lines) h = elim (Option-cases (section_re line)) [
    | inr begins ↦ absurd (rw (begins.1, IsSectioned) at h tt)
    | inl goes_on ↦ elim (Option-cases (key_pair_re line)) [
      | inl neither ↦
          let later : ¬ IsSectioned lines = rw (goes_on, neither, IsSectioned) at h in
          rw (goes_on, neither, parse_line) (parse_lines-eq_none lines later)
      | inr pair ↦ rw (goes_on, pair.1, parse_line, set_value) refl
    ]
  ]

  -- If the first line that is recognised is a key with its value, then `Parse` panics.
  pub parse_crashes :
      (lines : List Bytes) → ¬ IsSectioned lines → parse section_re key_pair_re lines ≡ none
  unfolding parse
  parse_crashes lines h = rw (parse_lines-eq_none lines h) refl
