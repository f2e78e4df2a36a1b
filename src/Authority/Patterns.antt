-- ===== src/Authority/Patterns.antt =====
-- The accepted identifiers are exactly those of the documented pattern, up to 256 characters.
use mr_enderson.Base.{
  ℕ, ◌≤◌, ◌≡◌, refl, ◌↔◌, String, Bool, true, false, List, [], ◌∷◌, arith, ok, is_ok, length,
  is_empty, any, all, &&-parts,
}
use mr_enderson.Authority.Identifiers.{
  codes, Unicode, is_control_char, is_alphanumeric, is_id_char, id_tail, agent_id_pattern,
  codes_beq, lstrip, rstrip, strip, validate_identifier, has_unsafe_chars, validate_id,
}

-- What Unicode says of the ASCII letters, digits and `._:-`: none is white space, a control
-- character or a line separator.
pub record IsAscii (u : Unicode) : Type 0 where
  pub visible : (c : ℕ) → is_id_char c ≡ true → u.is_space c ≡ false
  pub harmless : (c : ℕ) → is_id_char c ≡ true → u.is_line_or_control c ≡ false

is_id_char_of_alphanumeric : (c : ℕ) → is_alphanumeric c ≡ true → is_id_char c ≡ true
unfolding is_id_char
is_id_char_of_alphanumeric c h = ground arith

not_control : (c : ℕ) → is_id_char c ≡ true → is_control_char c ≡ false
unfolding is_id_char is_control_char
not_control c h = ground arith

id_tail-all : (cs : List ℕ) → id_tail cs ≡ true → all is_id_char cs ≡ true
unfolding id_tail
id_tail-all [] h = refl
id_tail-all (c ∷ []) h = ground (arith, is_id_char_of_alphanumeric c h)
id_tail-all (c ∷ d ∷ cs) h =
    let (p, q) = &&-parts (is_id_char c) (id_tail (d ∷ cs)) h in
    ground (arith, p, id_tail-all (d ∷ cs) q)

pattern-all : (cs : List ℕ) → agent_id_pattern cs ≡ true → all is_id_char cs ≡ true
unfolding agent_id_pattern
pattern-all [] h = refl
pattern-all (c ∷ []) h = ground (arith, is_id_char_of_alphanumeric c h)
pattern-all (c ∷ d ∷ cs) h =
    let (p, q) = &&-parts _ _ h in
    ground (arith, is_id_char_of_alphanumeric c p, id_tail-all (d ∷ cs) q)

codes_beq_refl : (cs : List ℕ) → codes_beq cs cs ≡ true
codes_beq_refl [] = refl
codes_beq_refl (c ∷ cs) = ground (arith, codes_beq_refl cs)

any-id_char :
    (p : ℕ → Bool) (cs : List ℕ)
    → ((c : ℕ) → is_id_char c ≡ true → p c ≡ false)
    → all is_id_char cs ≡ true
    → any p cs ≡ false
any-id_char p [] h k = refl
any-id_char p (c ∷ cs) h k =
    let (head, tail) = &&-parts _ _ k in ground (arith, h c head, any-id_char p cs h tail)

module _ (u : Unicode) (ascii : IsAscii u) where
  rstrip-id : (cs : List ℕ) → all is_id_char cs ≡ true → rstrip u cs ≡ cs
  unfolding rstrip
  rstrip-id [] h = refl
  rstrip-id (c ∷ cs) h =
      let (head, tail) = &&-parts _ _ h in
      rw (rstrip-id cs tail) (ground (arith, ascii.visible c head))

  lstrip-id : (cs : List ℕ) → all is_id_char cs ≡ true → lstrip u cs ≡ cs
  unfolding lstrip
  lstrip-id [] h = refl
  lstrip-id (c ∷ cs) h = let (head, tail) = &&-parts _ _ h in ground (arith, ascii.visible c head)

  strip-id : (cs : List ℕ) → all is_id_char cs ≡ true → strip u cs ≡ cs
  unfolding strip
  strip-id cs h = rw (lstrip-id cs h) (rstrip-id cs h)

  pattern-ne-nil : (cs : List ℕ) → agent_id_pattern cs ≡ true → is_empty cs ≡ false
  unfolding agent_id_pattern
  pattern-ne-nil [] h = cc
  pattern-ne-nil (c ∷ cs) h = refl

  validate_identifier_of_pattern :
      (cs : List ℕ)
      → agent_id_pattern cs ≡ true
      → length cs ≤ 256
      → validate_identifier u cs ≡ ok cs
  unfolding validate_identifier
  validate_identifier_of_pattern cs h k = ground (
    arith,
    strip-id cs (pattern-all cs h),
    pattern-ne-nil cs h,
    codes_beq_refl cs,
    any-id_char is_control_char cs not_control (pattern-all cs h),
  )

  unsafe_of_pattern : (cs : List ℕ) → agent_id_pattern cs ≡ true → has_unsafe_chars u cs ≡ false
  unfolding has_unsafe_chars
  unsafe_of_pattern cs h = any-id_char u.is_line_or_control cs ascii.harmless (pattern-all cs h)

  -- Where no ASCII letter, digit or `._:-` is white space, a control character or a line
  -- separator: an identifier is accepted, unchanged, exactly when it matches the pattern and
  -- has at most 256 characters. The blank, padding and control character tests reject no more.
  pub validate_id_iff_pattern :
      (value : String)
      → (validate_id u value ≡ ok value)
        ↔ ((agent_id_pattern (codes value) ≡ true) × (length (codes value) ≤ 256))
  unfolding validate_id
  validate_id_iff_pattern value = (
    λ h. ground (arith, validate_identifier_length (codes value)),
    λ (h, k). ground (
      arith,
      validate_identifier_of_pattern (codes value) h k,
      unsafe_of_pattern (codes value) h,
    ),
  )
    where
      validate_identifier_length :
          (cs : List ℕ) → is_ok (validate_identifier u cs) ≡ true → length cs ≤ 256
      validate_identifier_length cs h = unfold validate_identifier in ground arith
