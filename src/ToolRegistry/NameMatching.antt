-- ===== src/ToolRegistry/NameMatching.antt =====
-- The texts that `re.match` with a `$` pattern lets through, against the match of a whole text.
use mr_enderson.Base.{
  ℕ, ◌≡◌, refl, ap, ◌↔◌, ◌⊎◌, inl, inr, Bool, true, false, ◌&&◌, Option, none, some, List, [], ◌∷◌,
  ◌++◌, arith, string_eq, is_empty, nat_beq, Bool-cases, &&-parts, if◌then◌else◌,
}
use mr_enderson.ToolRegistry.Names.{Place, at_start, next_place, accepts, scan}

-- The pattern as the comment on it means it: the whole text, up to its end.
pub full : Bool → Place → List ℕ → Bool
full dots place [] = accepts dots place
full dots place (c ∷ cs) = elim (next_place dots place c) [
  | none ↦ false
  | some place' ↦ full dots place' cs
]

-- A match of the whole text, or of all but a newline at its end.
abbrev Matches : Bool → Place → List ℕ → Type 0
Matches dots place cs =
    (full dots place cs ≡ true)
    ⊎ ((ds : List ℕ) × (cs ≡ ds ++ (10 ∷ [])) × (full dots place ds ≡ true))

only_newline : (c : ℕ) (cs : List ℕ) → nat_beq c 10 ≡ true → is_empty cs ≡ true → c ∷ cs ≡ 10 ∷ []
only_newline c [] h k = ground arith
only_newline c (d ∷ ds) h k = cc

scan-Matches :
    (dots : Bool) (place : Place) (cs : List ℕ) → scan dots place cs ≡ true → Matches dots place cs
unfolding scan full
scan-Matches dots place [] h = inl h
scan-Matches dots place (c ∷ cs) h =
    go (next_place dots place c) refl h (λ place'. scan-Matches dots place' cs)
  where
    push :
        (place' : Place)
        → next_place dots place c ≡ some place'
        → Matches dots place' cs
        → Matches dots place (c ∷ cs)
    push place' e (inl all_of_it) = inl (rw (e, full) all_of_it)
    push place' e (inr (ds, same, but_one)) =
        inr (c ∷ ds, ap (λ l. c ∷ l) same, rw (e, full) but_one)

    at_end :
        (accepts dots place && (nat_beq c 10 && is_empty cs)) ≡ true → Matches dots place (c ∷ cs)
    at_end k =
        let (good, last) = &&-parts _ _ k in
        let (newline, empty) = &&-parts _ _ last in inr ([], only_newline c cs newline empty, good)

    go :
        (o : Option Place)
        → next_place dots place c ≡ o
        → (if accepts dots place && (nat_beq c 10 && is_empty cs)
            then true
            else elim o [ none ↦ false | some place' ↦ scan dots place' cs ])
          ≡ true
        → ((place' : Place) → scan dots place' cs ≡ true → Matches dots place' cs)
        → Matches dots place (c ∷ cs)
    go none e h ih = at_end (ground (arith, h))
    go (some place') e h ih =
        elim (Bool-cases (accepts dots place && (nat_beq c 10 && is_empty cs))) [
          | inl end ↦ at_end end
          | inr more ↦ push place' e (ih place' (rw more at h))
        ]

-- One step of the two automata: what the whole match accepts, the match before `$` accepts.
either :
    (b : Bool) (o : Option Place) (f g : Place → Bool)
    → ((p : Place) → f p ≡ true → g p ≡ true)
    → (elim o [ none ↦ false | some p ↦ f p ]) ≡ true
    → (if b then true else elim o [ none ↦ false | some p ↦ g p ]) ≡ true
either true o f g step h = refl
either false none f g step h = cc
either false (some p) f g step h = step p h

full-scan :
    (dots : Bool) (place : Place) (cs : List ℕ)
    → full dots place cs ≡ true
    → scan dots place cs ≡ true
unfolding scan full
full-scan dots place [] h = h
full-scan dots place (c ∷ cs) h =
    either _ (next_place dots place c) (λ p. full dots p cs) (λ p. scan dots p cs)
      (λ p. full-scan dots p cs) h

newline-scan :
    (dots : Bool) (place : Place) (ds : List ℕ)
    → full dots place ds ≡ true
    → scan dots place (ds ++ (10 ∷ [])) ≡ true
unfolding scan full
newline-scan dots place [] h = ground (arith, h)
newline-scan dots place (c ∷ cs) h =
    either _ (next_place dots place c) (λ p. full dots p cs) (λ p. scan dots p (cs ++ (10 ∷ [])))
      (λ p. newline-scan dots p cs) h

-- The two name patterns accept a text exactly when the whole text matches, or when the whole
-- text but a newline at its end does: they do not keep a trailing newline out.
pub patterns_iff :
    (dots : Bool) (cs : List ℕ)
    → (scan dots at_start cs ≡ true) ↔ (
        (full dots at_start cs ≡ true)
        ⊎ ((ds : List ℕ) × (cs ≡ ds ++ (10 ∷ [])) × (full dots at_start ds ≡ true)))
patterns_iff dots cs = (scan-Matches dots at_start cs, backward)
  where
    backward :
        (full dots at_start cs ≡ true)
          ⊎ ((ds : List ℕ) × (cs ≡ ds ++ (10 ∷ [])) × (full dots at_start ds ≡ true))
        → scan dots at_start cs ≡ true
    backward (inl all_of_it) = full-scan dots at_start cs all_of_it
    backward (inr (ds, same, but_one)) = rw same (newline-scan dots at_start ds but_one)
