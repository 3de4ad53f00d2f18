-- ===== src/Ini/Sections.antt =====
-- What the two changes of a configuration do to its values.
use gossip_protocol.Base.{
  ◌≡◌, refl, true, Option, none, some, [], Bytes, Bytes-discrete, lookup, insert, contains, ite,
  ◌>>=◌, Option-cases, inl, inr, arith, lookup-insert, lookup-insert_self,
}
use gossip_protocol.Ini.Parser.{Bytes-Comparable, Config, Parser, open_section, set_value}

unfoldable pub value_of : Bytes → Bytes → Config → Option Bytes
value_of s key config = lookup s config >>= λ dict. lookup key dict

abbrev pub or_else : Option Bytes → Option Bytes → Option Bytes
or_else none other = other
or_else (some v) other = some v

pub or_else_assoc : (a b c : Option Bytes) → or_else (or_else a b) c ≡ or_else a (or_else b c)
or_else_assoc none b c = refl
or_else_assoc (some x) b c = refl

pub open_section-value_of :
    (name s key : Bytes) (p : Parser)
    → value_of s key (open_section name p).config ≡ value_of s key p.config
unfolding open_section value_of lookup
open_section-value_of name s key p = elim (Option-cases (lookup name p.config)) [
  | inl missing ↦ ground (arith, missing, lookup-insert name s [] p.config)
  | inr found ↦ ground (arith, found)
]

pub open_section-contains :
    (name : Bytes) (p : Parser) → contains name (open_section name p).config ≡ true
unfolding open_section
open_section-contains name p = elim (Option-cases (lookup name p.config)) [
  | inl missing ↦ ground (arith, missing, lookup-insert_self name [] p.config)
  | inr found ↦ ground (arith, found)
]

-- A write to a section that exists.
pub set_value-value_of :
    (k v : Bytes) (p : Parser)
    → contains p.section_name p.config ≡ true
    → (q : Parser) × (set_value k v p ≡ some q)
      × (q.section_name ≡ p.section_name)
      × (contains q.section_name q.config ≡ true)
      × ((s key : Bytes)
          → value_of s key q.config
            ≡ or_else
                (ite
                  (Bytes-discrete s p.section_name)
                  (ite (Bytes-discrete key k) (some v) none)
                  none)
                (value_of s key p.config))
unfolding set_value value_of
set_value-value_of k v p h = elim (Option-cases (lookup p.section_name p.config)) [
  | inl missing ↦ absurd (ground (arith, missing, h))
  | inr found ↦ (
    record p { config = insert p.section_name (insert k v found.0) p.config },
    rw (found.1, set_value) refl,
    refl,
    ground (arith, lookup-insert_self p.section_name (insert k v found.0) p.config),
    λ s key. ground (
      arith,
      found.1,
      lookup-insert p.section_name s (insert k v found.0) p.config,
      lookup-insert k key v found.0,
    ),
  )
]
