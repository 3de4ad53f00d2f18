-- ===== src/Datastruct/MarkList/Laws.antt =====
-- A mark list keeps its sizes in order, and no method panics at an index below `Len`.
use gossip_protocol.Base.{
  ℕ, ◌+◌, ◌-◌, ◌<◌, ◌≤◌, ◌≡◌, refl, Option, none, some, length, get_elem?, arith, ℤ, pos, negsuc,
  get_elem?_lt, get_elem?-set, length-set, set, ◌==◌, if◌then◌else◌, ◌⊎◌, inl, inr, Bool-cases, leb,
  ltb, leb→le, ◌∙◌, ap, sym,
}
use gossip_protocol.Datastruct.MarkList.{
  MarkList, new, elem_at_index, add, exchange, mark, unmark, remove_at, settled,
}

pub record IsSized {A : Type 0} (m : MarkList A) : Type 0 where
  pub marked_le : m.marked_size ≤ m.total_size
  pub total_le : m.total_size ≤ length m.list

-- What `mark` and `unmark` do at an index in range.
module _ {A : Type 0} (m : MarkList A) (i : ℕ) (w : IsSized m) (h : i < m.total_size) where
  pub record Marked : Type 0 where
    pub entry : Option A
    pub other : Option A
    pub at_i : get_elem? m.list i ≡ some entry
    pub at_boundary : get_elem? m.list m.marked_size ≡ some other
    pub after : MarkList A
    pub result : mark i m ≡ some (pos m.marked_size, after)
    pub sizes : IsSized after
    pub grown : after.marked_size ≡ m.marked_size + 1
    pub same_total : after.total_size ≡ m.total_size
    pub entries :
        (j : ℕ)
        → get_elem? after.list j ≡ (
            if m.marked_size == j
            then some entry
            else if i == j
            then some other
            else get_elem? m.list j)

  -- On a well-formed mark list, marking an unmarked entry below `Len` exchanges it with the first
  -- unmarked one and moves the boundary.
  pub mark-Marked : m.marked_size ≤ i → Marked
  unfolding mark elem_at_index exchange
  mark-Marked u =
      let (x, ex) = get_elem?_lt m.list i (omega arith) in
      let (y, ey) = get_elem?_lt m.list m.marked_size (omega arith) in
      record {
        entry = x;
        other = y;
        at_i = ex;
        at_boundary = ey;
        after = record m {
          list = set (set m.list i y) m.marked_size x;
          marked_size = m.marked_size + 1;
        };
        result = ground arith;
        sizes = omega (arith, length-set (set m.list i y) m.marked_size x, length-set m.list i y);
        grown = refl;
        same_total = refl;
        entries = λ j. ground (
          arith,
          length-set m.list i y,
          get_elem?-set (set m.list i y) m.marked_size j x,
          get_elem?-set m.list i j y,
        );
      }

pub new-IsSized : {A : Type 0} (capacity : ℕ) → IsSized (new {A = A} capacity)
unfolding new
new-IsSized capacity = omega arith

-- On a well-formed mark list, `Add` panics at capacity, and otherwise puts the element behind the
-- others, unmarked.
pub add_cases :
    {A : Type 0} (a : A) (m : MarkList A)
    → IsSized m
    → ((m.total_size ≡ length m.list) × (add a m ≡ none))
      ⊎ ((after : MarkList A) × (add a m ≡ some after)
          × IsSized after
          × (after.marked_size ≡ m.marked_size)
          × (after.total_size ≡ m.total_size + 1)
          × (get_elem? after.list m.total_size ≡ some (some a)))
unfolding add
add_cases a m w = elim (Bool-cases (leb (length m.list) m.total_size)) [
  | inl full ↦ inl (omega (arith, leb→le _ _ full), rw full)
  | inr room ↦
      let fits : m.total_size < length m.list = ground arith in
      inr (
        record m { list = set m.list m.total_size (some a); total_size = m.total_size + 1 },
        rw room,
        omega (arith, length-set m.list m.total_size (some a)),
        refl,
        refl,
        ground (arith, get_elem?-set m.list m.total_size m.total_size (some a)),
      )
]

-- What `Unmark` does: a marked entry changes places with the last marked one and the boundary moves
-- down, an unmarked one stays and the result is -1.
pub record Unmarked {A : Type 0} (i : ℕ) (m : MarkList A) : Type 0 where
  pub index : ℤ
  pub after : MarkList A
  pub result : unmark i m ≡ some (index, after)
  pub sizes : IsSized after
  pub same_total : after.total_size ≡ m.total_size
  pub same_cap : length after.list ≡ length m.list
  pub place : settled i index < m.total_size
  pub unmarked : after.marked_size ≤ settled i index
  pub shrunk :
      after.marked_size ≡ (if ltb i m.marked_size then m.marked_size - 1 else m.marked_size)
  pub placed : settled i index ≡ (if ltb i m.marked_size then m.marked_size - 1 else i)
  pub entries :
      (j : ℕ)
      → get_elem? after.list j ≡ (
          if ltb i m.marked_size
          then (if m.marked_size - 1 == j
              then get_elem? m.list i
              else if i == j
              then get_elem? m.list (m.marked_size - 1)
              else get_elem? m.list j)
          else get_elem? m.list j)
  pub moved : get_elem? after.list (settled i index) ≡ get_elem? m.list i

-- On a well-formed mark list, `Unmark` succeeds at every index below `Len` and keeps the list well
-- formed; the entry is unmarked afterwards, at the index that it reports or, for -1, at the old one.
pub unmark-Unmarked :
    {A : Type 0} (i : ℕ) (m : MarkList A) → IsSized m → i < m.total_size → Unmarked i m
unfolding unmark elem_at_index exchange
unmark-Unmarked i m w h =
    let (x, ex) = get_elem?_lt m.list i (omega arith) in
    elim (Bool-cases (ltb i m.marked_size)) [
      | inl below ↦
          let lt : i < m.marked_size = ground arith in
          let (y, ey) = get_elem?_lt m.list (m.marked_size - 1) (omega arith) in
          record {
            index = pos (m.marked_size - 1);
            after = record m {
              list = set (set m.list i y) (m.marked_size - 1) x;
              marked_size = m.marked_size - 1;
            };
            result = ground arith;
            sizes =
                omega
                  (arith, length-set (set m.list i y) (m.marked_size - 1) x, length-set m.list i y);
            same_total = refl;
            same_cap = length-set (set m.list i y) (m.marked_size - 1) x ∙ length-set m.list i y;
            place = omega arith;
            unmarked = omega arith;
            shrunk = rw below;
            placed = rw below;
            entries = λ j. rw below (
                ground (
                  arith,
                  ex,
                  ey,
                  length-set m.list i y,
                  get_elem?-set (set m.list i y) (m.marked_size - 1) j x,
                  get_elem?-set m.list i j y,
                ));
            moved = ground (
              arith,
              length-set m.list i y,
              get_elem?-set (set m.list i y) (m.marked_size - 1) (m.marked_size - 1) x,
            );
          }
      | inr above ↦ record {
        index = negsuc 0;
        after = m;
        result = ground arith;
        sizes = w;
        same_total = refl;
        same_cap = refl;
        place = h;
        unmarked = ground arith;
        shrunk = rw above;
        placed = rw above;
        entries = λ j. rw above;
        moved = refl;
      }
    ]

-- The entries below the new length, after the entry at `i` is removed: the last entry is in its place,
-- or, if it was marked, the last marked entry is, and the last entry takes the place of that one.
abbrev pub remaining : {A : Type 0} → ℕ → MarkList A → ℕ → Option (Option A)
remaining i m j =
    if ltb i m.marked_size
    then (if m.marked_size - 1 == j
        then get_elem? m.list (m.total_size - 1)
        else if i == j
        then get_elem? m.list (m.marked_size - 1)
        else get_elem? m.list j)
    else if i == j
    then get_elem? m.list (m.total_size - 1)
    else get_elem? m.list j

-- On a well-formed mark list, `RemoveAt` succeeds at every index below `Len`. It takes one from
-- the length, and one from the marked length exactly if the entry was marked; the list stays well
-- formed. The last entry takes the place of the removed one, if that was unmarked; if it was marked,
-- the last marked entry does, and the last entry takes the place of that one. No other entry moves.
pub remove_at_lem :
    {A : Type 0} (i : ℕ) (m : MarkList A)
    → IsSized m
    → i < m.total_size
    → (after : MarkList A) × (remove_at i m ≡ some after)
      × IsSized after
      × (after.total_size + 1 ≡ m.total_size)
      × (after.marked_size ≡ (if ltb i m.marked_size then m.marked_size - 1 else m.marked_size))
      × ((j : ℕ) → j < after.total_size → get_elem? after.list j ≡ remaining i m j)
unfolding remove_at
remove_at_lem i m w h =
    let u = unmark-Unmarked i m w h in
    let (last, e) =
      get_elem?_lt u.after.list (u.after.total_size - 1) (omega (arith, u.sizes, u.same_total)) in
    let place = settled i u.index in
    let in_list : place < length u.after.list = omega (arith, u.place, u.same_total, u.sizes) in
    let at_last : get_elem? u.after.list (m.total_size - 1) ≡ some last =
      ap (λ n. get_elem? u.after.list (n - 1)) (sym u.same_total) ∙ e in
    (
      record (u.after) { list = set u.after.list place last; total_size = u.after.total_size - 1 },
      rw (u.result, e, remove_at),
      omega (arith, u.sizes, u.same_total, u.unmarked, u.place, length-set u.after.list place last),
      omega (arith, u.same_total),
      u.shrunk,
      λ j lt.
          get_elem?-set u.after.list place j last in_list
          ∙ elim (Bool-cases (ltb i m.marked_size)) [
            | inl below ↦ rw below (
                ground (
                  arith,
                  u.entries j,
                  u.entries (m.total_size - 1),
                  u.placed,
                  below,
                  at_last,
                  lt,
                  u.same_total,
                  w.marked_le,
                ))
            | inr above ↦ rw above (
                ground (
                  arith,
                  u.entries j,
                  u.entries (m.total_size - 1),
                  u.placed,
                  above,
                  at_last,
                  lt,
                  u.same_total,
                ))
          ],
    )
