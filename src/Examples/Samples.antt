-- ===== src/Examples/Samples.antt =====
-- Sample values for the tests and witnesses.
use mr_enderson.Base.{false, none, some, [], ◌∷◌, leb, ltb, nat_beq, ◌||◌, ◌&&◌}
use mr_enderson.Schemas.{ActionStatus, PermissionLevel, RiskLevel, Action, object, no_fields}
use mr_enderson.Authority.Tiers.{PTier}
use mr_enderson.Authority.Identifiers.{Unicode}
use mr_enderson.Authority.Contracts.{AuthorityScope, ObjectiveRef, Zone}
use mr_enderson.ToolRegistry.Operations.{Tools}
use mr_enderson.ToolRegistry.Defaults.{communication_send_email, research_read}

-- ASCII white space and control characters.
abbrev pub ascii : Unicode
ascii = record {
  is_space = λ c. nat_beq c 32 || (leb 9 c && leb c 13);
  is_line_or_control = λ c. ltb c 32;
}

abbrev pub email_action : Action
email_action = record {
  id = "a1";
  action_plan_id = "p1";
  sequence = 0;
  action_type = "send";
  title = "Mail the report";
  description = "";
  agent_type = "execution";
  tool_name = some "communication.send_email";
  inputs = object no_fields;
  risk_level = RiskLevel.low;
  permission_level = PermissionLevel.write;
  approval_required = false;
  approval_id = none;
  estimated_cost = none;
  dependencies = [];
  expected_result = "sent";
  success_criteria = "delivered";
  verification_method = "manual";
  status = ActionStatus.validated;
  started_at = none;
  completed_at = none;
  result = none;
  error = none;
  retry_count = 0;
  max_retries = 2;
  superseded_by = none;
}

abbrev pub registry : Tools
registry =
    ("communication.send_email", communication_send_email) ∷ ("research.read", research_read) ∷ []

abbrev pub objective : ObjectiveRef
objective = record { objective_id = "obj.1"; objective_version = 1 }

abbrev pub wide : AuthorityScope
wide = record {
  schema_version = 1;
  vocabulary_version = 1;
  permission_ceiling = PTier.p4;
  action_types = "read" ∷ "send" ∷ [];
  objective_ref = objective;
  expires_at = record { instant = 900; tzinfo = Zone.utc };
}

abbrev pub narrow : AuthorityScope
narrow = record {
  schema_version = 1;
  vocabulary_version = 1;
  permission_ceiling = PTier.p2;
  action_types = "internal_create" ∷ "read" ∷ [];
  objective_ref = objective;
  expires_at = record { instant = 500; tzinfo = Zone.utc };
}

-- A tampered scope: its ceiling is not issuable.
abbrev pub tampered : AuthorityScope
tampered = record wide { permission_ceiling = PTier.p5 }
