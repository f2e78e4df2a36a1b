-- ===== src/PermissionEngine/Vocabulary.antt =====
-- The pinned vocabulary of app/authority_contracts/contracts.py against the tables of the
-- permission engine.
use mr_enderson.Base.{
  ◌≡◌, refl, ◌≢◌, String, Bool, true, false, not, Option, none, some, List, [], ◌∷◌, arith,
  string_eq, contains, all, all-at, if◌then◌else◌, Dict, lookup, ◌∙◌,
}
use mr_enderson.Schemas.{PermissionLevel, RiskLevel}
use mr_enderson.Authority.Tiers.{
  PTier, p_tier_eq, action_type_floor_v1, tier_floor, tier_leq, floor_in,
}
use mr_enderson.Authority.Identifiers.{Unicode}
use mr_enderson.Authority.Contracts.{
  AuthorityScope, check_ceiling, floor_fits, check_tier_consistency,
}
use mr_enderson.Authority.Validity.{IsValid}
use mr_enderson.PermissionEngine.Levels.{
  floor_of, requires_tool, action_type_floor, no_tool_action_types,
}

-- The tier to which the engine's documentation assigns a pair of levels.
abbrev pub tier_of_levels : PermissionLevel × RiskLevel → PTier
tier_of_levels (PermissionLevel.read, _) = PTier.p1
tier_of_levels (PermissionLevel.write, _) = PTier.p2
tier_of_levels (PermissionLevel.external_action, RiskLevel.medium) = PTier.p3
tier_of_levels (PermissionLevel.external_action, _) = PTier.p4
tier_of_levels (PermissionLevel.financial_action, _) = PTier.p5
tier_of_levels (PermissionLevel.admin, _) = PTier.p5

-- The tier that the engine's two tables give an action type.
abbrev pub engine_tier : String → Option PTier
engine_tier t =
    if requires_tool t
    then elim (floor_of t) [ none ↦ none | some levels ↦ some (tier_of_levels levels) ]
    else some PTier.p0

-- Two tables in one: types of tier P0, and types with their levels.
abbrev merged : List String → Dict String (PermissionLevel × RiskLevel) → List (String × PTier)
merged [] [] = []
merged [] ((k, v) ∷ d) = (k, tier_of_levels v) ∷ merged [] d
merged (n ∷ ns) d = (n, PTier.p0) ∷ merged ns d

abbrev tier_from : Bool → Option (PermissionLevel × RiskLevel) → Option PTier
tier_from free levels =
    if not free
    then elim levels [ none ↦ none | some pair ↦ some (tier_of_levels pair) ]
    else some PTier.p0

floor_in-merged :
    (t : String) (ns : List String) (d : Dict String (PermissionLevel × RiskLevel))
    → floor_in t (merged ns d) ≡ tier_from (contains t ns) (lookup t d)
unfolding floor_in
floor_in-merged t [] [] = refl
floor_in-merged t [] ((k, v) ∷ d) = ground (arith, floor_in-merged t [] d)
floor_in-merged t (n ∷ ns) d = ground (arith, floor_in-merged t ns d)

-- The pinned vocabulary gives every action type the tier that the permission engine's tables
-- give it, and leaves out the types that the engine does not know.
pub vocabulary_agrees : (t : String) → tier_floor t ≡ engine_tier t
vocabulary_agrees t = tables ∙ floor_in-merged t no_tool_action_types action_type_floor ∙ engine
  where
    tables : tier_floor t ≡ floor_in t (merged no_tool_action_types action_type_floor)
    tables =
        unfold tier_floor floor_in action_type_floor_v1 no_tool_action_types action_type_floor in
        refl

    engine :
        tier_from (contains t no_tool_action_types) (lookup t action_type_floor) ≡ engine_tier t
    engine = unfold requires_tool floor_of no_tool_action_types action_type_floor in refl

fits-tier :
    (ceiling : PTier) (t : String)
    → floor_fits ceiling t ≡ true
    → (tier : PTier) × (tier_floor t ≡ some tier) × (tier_leq tier ceiling ≡ true)
fits-tier ceiling t h = go (tier_floor t) refl h
  where
    go :
        (f : Option PTier)
        → tier_floor t ≡ f
        → (elim f [ none ↦ false | some floor ↦ tier_leq floor ceiling ]) ≡ true
        → (tier : PTier) × (tier_floor t ≡ some tier) × (tier_leq tier ceiling ≡ true)
    go none e k = cc
    go (some tier) e k = (tier, e, k)

below_issuable :
    (tier ceiling : PTier)
    → check_ceiling ceiling ≡ true
    → tier_leq tier ceiling ≡ true
    → tier ≢ PTier.p5
unfolding check_ceiling tier_leq
below_issuable tier ceiling h k e = ground arith

-- Every action type of a valid scope is one that the permission engine knows, at a tier that is
-- at or below the scope's ceiling and is not P5: no scope carries a financial or privileged type.
pub valid_scope_excludes_p5 :
    (u : Unicode) (s : AuthorityScope) (t : String)
    → IsValid u s
    → contains t s.action_types ≡ true
    → (tier : PTier) × (engine_tier t ≡ some tier)
      × (tier_leq tier s.permission_ceiling ≡ true)
      × (tier ≢ PTier.p5)
valid_scope_excludes_p5 u s t v m =
    let fits : all (floor_fits s.permission_ceiling) s.action_types ≡ true =
      unfold check_tier_consistency in v.consistent in
    let (tier, e, low) =
      fits-tier s.permission_ceiling t
        (all-at (floor_fits s.permission_ceiling) t s.action_types fits m) in
    (tier, cc (vocabulary_agrees t), low, below_issuable tier s.permission_ceiling v.ceiling low)
