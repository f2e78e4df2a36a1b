-- ===== src/Providers/Distinct.antt =====
-- Lists whose elements have different keys, and that the consistency check of the result accepts
-- them.
use mr_enderson.Base.{
  IsDistinct, ◌≡◌, refl, sym, ap, inl, inr, true, false, List, [], ◌∷◌, string_eq, ==→≡, ==→≢,
  ==-cases, contains, keep, In, here, there, In-uncons, Bool-cases,
}
use mr_enderson.Providers.Catalogue.{ModelKey, model_key_eq}
use mr_enderson.Providers.Routing.{
  CandidateEvaluation, unique_evaluations, same_key, first_eligible,
}

abbrev pub key_of : CandidateEvaluation → ModelKey
key_of e = (e.provider_id, e.model_id)

pub distinct_unique :
    (es : List CandidateEvaluation) (seen : List ModelKey)
    → IsDistinct key_of es
    → ((e : CandidateEvaluation) → In e es → contains (key_of e) seen ≡ false)
    → unique_evaluations es seen ≡ true
unfolding IsDistinct
distinct_unique [] seen d new = refl
distinct_unique (e ∷ es) seen d new = rw (new e (here refl)) (
    distinct_unique es (key_of e ∷ seen) d.1 (λ x m. elim (==-cases (key_of x) (key_of e)) [
      | inl same ↦ absurd (d.0 x m same)
      | inr other ↦ rw (other, new x (there m)) refl
    ]))

pub winner_first :
    (es : List CandidateEvaluation) (w : CandidateEvaluation)
    → IsDistinct key_of es
    → In w es
    → w.eligible ≡ true
    → first_eligible (keep (same_key w.provider_id w.model_id) es) ≡ true
unfolding IsDistinct
winner_first [] w d m good = elim m [ ]
winner_first (e ∷ es) w d m good = elim (Bool-cases (same_key w.provider_id w.model_id e)) [
  | inl same ↦ elim (In-uncons w e es m) [
    | inl is ↦ rw same (rw (← is) good)
    | inr i ↦ absurd (d.0 w i (sym (==→≡ (key_of e) (key_of w) same)))
  ]
  | inr other ↦ elim (In-uncons w e es m) [
    | inl is ↦ absurd (==→≢ (key_of e) (key_of w) other (ap key_of (sym is)))
    | inr i ↦ rw other (winner_first es w d.1 i good)
  ]
]
