-- ===== src/Authority/Tiers.antt =====
-- Principals, tiers and the pinned action vocabulary (app/authority_contracts/contracts.py).
use mr_enderson.Base.{
  ℕ, String, Bool, Option, none, some, List, [], ◌∷◌, Eq, ◌==◌, string_eq, eq_of_discrete, leb, map,
  if◌then◌else◌,
}

pub data PrincipalKind : Type 0 where
  human_owner agent : PrincipalKind

pub data PTier : Type 0 where
  p0 p1 p2 p3 p4 p5 : PTier

abbrev pub PTier-discrete : Discrete PTier
PTier-discrete = hlevel

instance abbrev pub p_tier_eq : Eq PTier
p_tier_eq = eq_of_discrete PTier-discrete

-- `_TIER_RANK`: the place of the tier in the enum.
unfoldable pub tier_rank : PTier → ℕ
tier_rank PTier.p0 = 0
tier_rank PTier.p1 = 1
tier_rank PTier.p2 = 2
tier_rank PTier.p3 = 3
tier_rank PTier.p4 = 4
tier_rank PTier.p5 = 5

-- `_ISSUABLE_CEILINGS`
abbrev pub issuable_ceilings : List PTier
issuable_ceilings = PTier.p0 ∷ PTier.p1 ∷ PTier.p2 ∷ PTier.p3 ∷ PTier.p4 ∷ []

-- `_ACTION_TYPE_FLOOR_V1`
unfoldable pub action_type_floor_v1 : List (String × PTier)
action_type_floor_v1 =
    ("internal", PTier.p0)
    ∷ ("no_op", PTier.p0)
    ∷ ("manual", PTier.p0)
    ∷ ("decision_only", PTier.p0)
    ∷ ("read", PTier.p1)
    ∷ ("internal_create", PTier.p2)
    ∷ ("sandbox_create", PTier.p2)
    ∷ ("external_modify", PTier.p3)
    ∷ ("send", PTier.p4)
    ∷ ("publish", PTier.p4)
    ∷ ("delete", PTier.p4)
    ∷ ("financial", PTier.p5)
    ∷ ("install", PTier.p5)
    ∷ ("privileged", PTier.p5)
    ∷ []

-- `ACTION_TYPE_VOCABULARY`
unfoldable pub action_type_vocabulary : List String
unfolding action_type_floor_v1
action_type_vocabulary = map (λ e. e.0) action_type_floor_v1

-- `_ACTION_TYPE_FLOOR_V1[t]`; `none` is the KeyError of a name outside the vocabulary.
unfoldable pub floor_in : String → List (String × PTier) → Option PTier
floor_in t [] = none
floor_in t ((name, tier) ∷ rest) = if t == name then some tier else floor_in t rest

unfoldable pub tier_floor : String → Option PTier
unfolding floor_in action_type_floor_v1
tier_floor t = floor_in t action_type_floor_v1

-- `_tier_leq`
unfoldable pub tier_leq : PTier → PTier → Bool
unfolding tier_rank
tier_leq a b = leb (tier_rank a) (tier_rank b)
