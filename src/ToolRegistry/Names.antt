-- ===== src/ToolRegistry/Names.antt =====
-- The name patterns of app/decision_intelligence/tool_registry.py, over code points: each regular
-- expression as the automaton that `re.match` runs.
use mr_enderson.Base.{
  ℕ, Bool, true, false, ◌&&◌, ◌||◌, Option, none, some, List, [], ◌∷◌, leb, nat_beq, is_empty,
  if◌then◌else◌,
}

-- `[a-z]` and `[a-z0-9_]`
unfoldable pub is_lower : ℕ → Bool
is_lower letter = leb letter b'z' && leb b'a' letter

unfoldable pub is_word_char : ℕ → Bool
unfolding is_lower
is_word_char c = is_lower c || ((leb b'0' c && leb c b'9') || nat_beq c b'_')

-- Before a segment's first letter, or inside one; `dotted` says that a dot has gone by.
pub data Place : Type 0 where
  at_start : Place
  after_dot : Place
  inside : Bool → Place

unfoldable pub next_place : Bool → Place → ℕ → Option Place
next_place dots at_start c = if is_lower c then some (inside false) else none
next_place dots after_dot c = if is_lower c then some (inside true) else none
next_place dots (inside dotted) c =
    if is_word_char c
    then some (inside dotted)
    else if dots && nat_beq c b'.'
    then some after_dot
    else none

abbrev pub accepts : Bool → Place → Bool
accepts dots (inside dotted) = if dots then dotted else true
accepts dots _ = false

-- `$` matches at the end, and also before a newline that is the last character.
unfoldable pub scan : Bool → Place → List ℕ → Bool
scan dots place [] = accepts dots place
scan dots place (c ∷ cs) =
    if accepts dots place && (nat_beq c 10 && is_empty cs)
    then true
    else elim (next_place dots place c) [ none ↦ false | some place' ↦ scan dots place' cs ]

-- `_NAME_PATTERN.match`: `^[a-z][a-z0-9_]*(\.[a-z][a-z0-9_]*)+$`
unfoldable pub name_pattern : List ℕ → Bool
name_pattern cs = scan true at_start cs

-- `_ACTION_TYPE_PATTERN.match`: `^[a-z][a-z0-9_]*$`
unfoldable pub action_type_pattern : List ℕ → Bool
action_type_pattern cs = scan false at_start cs
