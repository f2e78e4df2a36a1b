-- ===== src/Authority/Identifiers.antt =====
-- The identifier policy: `validate_identifier` of app/providers/contracts.py, the charset of
-- app/agent_identity/contracts.py, and `_validate_id` of app/authority_contracts/contracts.py.
use Prim.Native.Char.{code}
use mr_enderson.Base.{
  ℕ, String, Bool, true, false, ◌&&◌, ◌||◌, not, List, [], ◌∷◌, Outcome, ok, ◌>>◌, raise_if, length,
  is_empty, any, leb, ltb, nat_beq, if◌then◌else◌,
}

-- The code points of a text.
abbrev pub codes : String → List ℕ
codes String.[] = []
codes (String.◌∷◌ head tail) = code head ∷ codes tail

pub data ValueError : Type 0 where
  value_error : ValueError

-- What Python knows of a character: whether `str.strip` removes it, and whether
-- `unicodedata.category` gives it one of Cc, Zl and Zp.
pub record Unicode : Type 0 where
  pub is_space : ℕ → Bool
  pub is_line_or_control : ℕ → Bool

abbrev pub max_identifier_length : ℕ
max_identifier_length = 256

-- `_CONTROL_CHARS`
unfoldable pub is_control_char : ℕ → Bool
is_control_char c = ltb c 32 || nat_beq c 127

unfoldable pub is_alphanumeric : ℕ → Bool
is_alphanumeric c =
    (leb b'A' c && leb c b'Z') || ((leb b'a' c && leb c b'z') || (leb b'0' c && leb c b'9'))

-- `[A-Za-z0-9._:-]`
unfoldable pub is_id_char : ℕ → Bool
unfolding is_alphanumeric
is_id_char c =
    is_alphanumeric c || (nat_beq c b'.' || (nat_beq c b'_' || (nat_beq c b':' || nat_beq c b'-')))

-- `[A-Za-z0-9._:-]*[A-Za-z0-9]`, after a first letter or digit.
unfoldable pub id_tail : List ℕ → Bool
id_tail [] = false
id_tail (c ∷ []) = is_alphanumeric c
id_tail (c ∷ d ∷ cs) = is_id_char c && id_tail (d ∷ cs)

-- `_AGENT_ID_PATTERN.fullmatch`
unfoldable pub agent_id_pattern : List ℕ → Bool
agent_id_pattern [] = false
agent_id_pattern (c ∷ []) = is_alphanumeric c
agent_id_pattern (c ∷ d ∷ cs) = is_alphanumeric c && id_tail (d ∷ cs)

abbrev pub codes_beq : List ℕ → List ℕ → Bool
codes_beq [] [] = true
codes_beq (x ∷ xs) (y ∷ ys) = nat_beq x y && codes_beq xs ys
codes_beq _ _ = false

module _ (u : Unicode) where
  -- `str.strip`
  unfoldable pub lstrip : List ℕ → List ℕ
  lstrip [] = []
  lstrip (c ∷ cs) = let rest = lstrip cs in if u.is_space c then rest else c ∷ cs

  unfoldable pub rstrip : List ℕ → List ℕ
  rstrip [] = []
  rstrip (c ∷ cs) = let rest = rstrip cs in if is_empty rest && u.is_space c then [] else c ∷ rest

  unfoldable pub strip : List ℕ → List ℕ
  strip cs = rstrip (lstrip cs)

  unfoldable pub validate_identifier : List ℕ → Outcome ValueError (List ℕ)
  validate_identifier value = do
    raise_if (is_empty (strip value)) value_error
    raise_if (ltb max_identifier_length (length value)) value_error
    raise_if (not (codes_beq value (strip value))) value_error
    raise_if (any is_control_char value) value_error
    ok value

  -- `_has_unsafe_chars` with nothing allowed
  unfoldable pub has_unsafe_chars : List ℕ → Bool
  has_unsafe_chars value = any u.is_line_or_control value

  -- `_validate_id`
  unfoldable pub validate_id : String → Outcome ValueError String
  validate_id value = do
    let points = codes value
    validate_identifier points
    raise_if (has_unsafe_chars points || not (agent_id_pattern points)) value_error
    ok value
