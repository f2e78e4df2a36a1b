-- ===== src/Examples/AuthorityCases.antt =====
-- Authority scopes, identifiers and the tool registry at concrete values.
use mr_enderson.Base.{
  ℕ, ◌≡◌, refl, ◌≤◌, ◌↔◌, ◌≢◌, ◌⊎◌, inl, String, true, false, List, [], ◌∷◌, ◌++◌, arith, ok, raise,
  length, string_eq, ◌==◌, some,
}
use mr_enderson.Authority.Tiers.{
  PTier, tier_leq, tier_floor, floor_in, action_type_floor_v1, action_type_vocabulary, tier_rank,
}
use mr_enderson.Authority.Identifiers.{
  codes, value_error, agent_id_pattern, validate_id, is_id_char, is_alphanumeric,
  validate_identifier, has_unsafe_chars, id_tail, is_control_char, strip, lstrip, rstrip,
}
use mr_enderson.Authority.Contracts.{
  valid_scope, check_schema_version, check_vocabulary_version, check_ceiling, check_action_types,
  valid_objective, check_expires_at, check_tier_consistency, validate_version,
}
use mr_enderson.Authority.Algebra.{Authority, no_authority, scope, versions_match, leq, meet}
use mr_enderson.Authority.Validity.{IsValid, IsValid-of_test, IsAuthority}
use mr_enderson.Authority.Semilattice.{Below}
use mr_enderson.Authority.Order.{leq_fail_closed, leq_iff_Below}
use mr_enderson.Authority.Meet.{meet_glb}
use mr_enderson.Authority.Patterns.{IsAscii, validate_id_iff_pattern}
use mr_enderson.PermissionEngine.Vocabulary.{engine_tier, valid_scope_excludes_p5}
use mr_enderson.ToolRegistry.Names.{
  at_start, scan, name_pattern, next_place, is_lower, is_word_char, action_type_pattern,
}
use mr_enderson.ToolRegistry.Operations.{
  Tools, get_tool, has_tool, register, unregister, validate_definition, well_formed,
}
use mr_enderson.ToolRegistry.Defaults.{communication_send_email, research_read, plan_create}
use mr_enderson.ToolRegistry.Consistency.{IsSound, changes-IsSound, registered_then_unregistered}
use mr_enderson.ToolRegistry.NameMatching.{full, patterns_iff}
use mr_enderson.Examples.Samples.{ascii, registry, wide, narrow, tampered}

ascii-IsAscii : IsAscii ascii
ascii-IsAscii = record {
  visible = λ c h. unfold is_id_char is_alphanumeric in ground arith;
  harmless = λ c h. unfold is_id_char is_alphanumeric in ground arith;
}

wide_accepted : valid_scope ascii wide ≡ true
unfolding valid_scope check_schema_version check_vocabulary_version check_ceiling check_action_types
    valid_objective check_expires_at check_tier_consistency tier_floor tier_leq floor_in
    action_type_floor_v1 action_type_vocabulary tier_rank validate_version validate_id
    validate_identifier has_unsafe_chars agent_id_pattern id_tail is_id_char is_alphanumeric
    is_control_char strip lstrip rstrip
wide_accepted = refl

wide-IsValid : IsValid ascii wide
wide-IsValid = IsValid-of_test ascii wide wide_accepted

narrow_accepted : valid_scope ascii narrow ≡ true
unfolding valid_scope check_schema_version check_vocabulary_version check_ceiling check_action_types
    valid_objective check_expires_at check_tier_consistency tier_floor tier_leq floor_in
    action_type_floor_v1 action_type_vocabulary tier_rank validate_version validate_id
    validate_identifier has_unsafe_chars agent_id_pattern id_tail is_id_char is_alphanumeric
    is_control_char strip lstrip rstrip
narrow_accepted = refl

narrow-IsValid : IsValid ascii narrow
narrow-IsValid = IsValid-of_test ascii narrow narrow_accepted

meet_glb_example :
    (m : Authority) × (meet ascii (scope wide) (scope narrow) ≡ ok m)
    × IsAuthority ascii m
    × (leq ascii m (scope wide) ≡ ok true)
    × (leq ascii m (scope narrow) ≡ ok true)
    × ((c : Authority)
        → leq ascii c (scope wide) ≡ ok true
        → leq ascii c (scope narrow) ≡ ok true
        → leq ascii c m ≡ ok true)
meet_glb_example = meet_glb ascii (scope wide) (scope narrow) wide-IsValid narrow-IsValid

leq_iff_Below_example :
    (leq ascii (scope narrow) (scope wide) ≡ ok true)
    ↔ (IsValid ascii narrow × IsValid ascii wide × Below narrow wide)
leq_iff_Below_example = leq_iff_Below ascii narrow wide

leq_fail_closed_example :
    (versions_match tampered wide ≡ false
      → (leq ascii (scope tampered) (scope wide) ≡ ok false)
        × (meet ascii (scope tampered) (scope wide) ≡ ok no_authority))
    × (versions_match tampered wide ≡ true
        → ¬ (IsValid ascii tampered × IsValid ascii wide)
        → (leq ascii (scope tampered) (scope wide) ≡ raise value_error)
          × (meet ascii (scope tampered) (scope wide) ≡ raise value_error))
leq_fail_closed_example = leq_fail_closed ascii tampered wide

validate_id_iff_pattern_example :
    (validate_id ascii "agent.1:x" ≡ ok "agent.1:x")
    ↔ ((agent_id_pattern (codes "agent.1:x") ≡ true) × (length (codes "agent.1:x") ≤ 256))
validate_id_iff_pattern_example = validate_id_iff_pattern ascii ascii-IsAscii "agent.1:x"

valid_scope_excludes_p5_example :
    (tier : PTier) × (engine_tier "send" ≡ some tier)
    × (tier_leq tier PTier.p4 ≡ true)
    × (tier ≢ PTier.p5)
valid_scope_excludes_p5_example = valid_scope_excludes_p5 ascii wide "send" wide-IsValid refl

patterns_iff_example : (scan true at_start (codes "evil.tool" ++ (10 ∷ [])) ≡ true) ↔ (
    (full true at_start (codes "evil.tool" ++ (10 ∷ [])) ≡ true)
    ⊎ ((ds : List ℕ) × (codes "evil.tool" ++ (10 ∷ []) ≡ ds ++ (10 ∷ []))
        × (full true at_start ds ≡ true)))
patterns_iff_example = patterns_iff true (codes "evil.tool" ++ (10 ∷ []))

registry-IsSound : IsSound registry
unfolding well_formed name_pattern scan next_place is_lower is_word_char action_type_pattern
registry-IsSound = record { keyed = (refl, (refl, tt)); sound = (refl, refl, (refl, refl, tt)) }

abbrev extended : Tools
extended =
    ("communication.send_email", communication_send_email)
    ∷ ("research.read", research_read)
    ∷ ("plan.create", plan_create)
    ∷ []

extended_registered : register registry plan_create false ≡ ok extended
unfolding register validate_definition name_pattern scan next_place is_lower is_word_char
    action_type_pattern has_tool
extended_registered = refl

extended_unregistered : unregister extended "plan.create" ≡ ok registry
unfolding unregister has_tool
extended_unregistered = refl

changes-IsSound_example : IsSound extended
changes-IsSound_example =
    changes-IsSound registry extended registry-IsSound
      (inl (plan_create, false, extended_registered))

registered_then_unregistered_example :
    (get_tool extended "plan.create" ≡ ok plan_create)
    × ((name : String)
        → (name == "plan.create") ≡ false
        → get_tool extended name ≡ get_tool registry name)
    × ((false ≡ false) → has_tool registry "plan.create" ≡ false)
    × (has_tool registry "plan.create" ≡ false)
    × ((name : String)
        → (name == "plan.create") ≡ false
        → get_tool registry name ≡ get_tool registry name)
registered_then_unregistered_example =
    registered_then_unregistered registry extended registry plan_create false registry-IsSound
      extended_registered extended_unregistered
