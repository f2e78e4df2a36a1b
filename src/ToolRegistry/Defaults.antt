-- ===== src/ToolRegistry/Defaults.antt =====
-- The catalog of `build_default_tool_registry` (app/decision_intelligence/tool_registry.py).
use mr_enderson.Base.{true, false, List, [], ◌∷◌, Outcome, ok, ◌>>=◌}
use mr_enderson.Schemas.{PermissionLevel, RiskLevel, object, no_fields}
use mr_enderson.ToolRegistry.Operations.{ToolDefinition, ToolError, Tools, register}

abbrev pub research_read : ToolDefinition
research_read = record {
  name = "research.read";
  description = "Read previously-gathered research/evidence. No network call, no mutation.";
  supported_action_types = "read" ∷ [];
  default_permission_level = PermissionLevel.read;
  default_risk_level = RiskLevel.low;
  has_side_effects = false;
  supports_dry_run = false;
  input_schema = object no_fields;
  output_schema = object no_fields;
  verification_strategy = "none";
  enabled = true;
}

abbrev pub plan_create : ToolDefinition
plan_create = record {
  name = "plan.create";
  description = "Create an internal ActionPlan/Decision artifact. No external effect.";
  supported_action_types = "internal_create" ∷ [];
  default_permission_level = PermissionLevel.write;
  default_risk_level = RiskLevel.low;
  has_side_effects = true;
  supports_dry_run = true;
  input_schema = object no_fields;
  output_schema = object no_fields;
  verification_strategy = "automated";
  enabled = true;
}

abbrev pub artifact_draft : ToolDefinition
artifact_draft = record {
  name = "artifact.draft";
  description = "Draft an internal artifact (e.g. a document body) with no external delivery.";
  supported_action_types = "internal_create" ∷ [];
  default_permission_level = PermissionLevel.write;
  default_risk_level = RiskLevel.low;
  has_side_effects = true;
  supports_dry_run = true;
  input_schema = object no_fields;
  output_schema = object no_fields;
  verification_strategy = "automated";
  enabled = true;
}

abbrev pub file_create_sandboxed : ToolDefinition
file_create_sandboxed = record {
  name = "file.create_sandboxed";
  description = "Create a file inside an application-controlled sandbox directory.";
  supported_action_types = "sandbox_create" ∷ [];
  default_permission_level = PermissionLevel.write;
  default_risk_level = RiskLevel.low;
  has_side_effects = true;
  supports_dry_run = true;
  input_schema = object no_fields;
  output_schema = object no_fields;
  verification_strategy = "automated";
  enabled = true;
}

abbrev pub mock_external_action : ToolDefinition
mock_external_action = record {
  name = "mock.external_action";
  description =
      "Placeholder for a reversible external mutation (e.g. an update to an external record that could be rolled back). No real external system is ever contacted by this definition.";
  supported_action_types = "external_modify" ∷ [];
  default_permission_level = PermissionLevel.external_action;
  default_risk_level = RiskLevel.medium;
  has_side_effects = true;
  supports_dry_run = true;
  input_schema = object no_fields;
  output_schema = object no_fields;
  verification_strategy = "manual";
  enabled = true;
}

abbrev pub communication_send_email : ToolDefinition
communication_send_email = record {
  name = "communication.send_email";
  description = "DEFINITION ONLY - never wired to a real mail transport.";
  supported_action_types = "send" ∷ [];
  default_permission_level = PermissionLevel.external_action;
  default_risk_level = RiskLevel.high;
  has_side_effects = true;
  supports_dry_run = true;
  input_schema = object no_fields;
  output_schema = object no_fields;
  verification_strategy = "manual";
  enabled = true;
}

abbrev pub content_publish : ToolDefinition
content_publish = record {
  name = "content.publish";
  description = "DEFINITION ONLY - never wired to a real publishing target.";
  supported_action_types = "publish" ∷ [];
  default_permission_level = PermissionLevel.external_action;
  default_risk_level = RiskLevel.high;
  has_side_effects = true;
  supports_dry_run = true;
  input_schema = object no_fields;
  output_schema = object no_fields;
  verification_strategy = "manual";
  enabled = true;
}

abbrev pub resource_delete_external : ToolDefinition
resource_delete_external = record {
  name = "resource.delete_external";
  description = "DEFINITION ONLY - never wired to a real deletion API.";
  supported_action_types = "delete" ∷ [];
  default_permission_level = PermissionLevel.external_action;
  default_risk_level = RiskLevel.high;
  has_side_effects = true;
  supports_dry_run = false;
  input_schema = object no_fields;
  output_schema = object no_fields;
  verification_strategy = "manual";
  enabled = true;
}

abbrev pub finance_spend_money : ToolDefinition
finance_spend_money = record {
  name = "finance.spend_money";
  description = "DEFINITION ONLY - never wired to a real payment processor.";
  supported_action_types = "financial" ∷ [];
  default_permission_level = PermissionLevel.financial_action;
  default_risk_level = RiskLevel.critical;
  has_side_effects = true;
  supports_dry_run = false;
  input_schema = object no_fields;
  output_schema = object no_fields;
  verification_strategy = "manual";
  enabled = true;
}

abbrev pub system_install_software : ToolDefinition
system_install_software = record {
  name = "system.install_software";
  description = "DEFINITION ONLY - never wired to a real installer; blocked by policy.";
  supported_action_types = "install" ∷ [];
  default_permission_level = PermissionLevel.admin;
  default_risk_level = RiskLevel.critical;
  has_side_effects = true;
  supports_dry_run = false;
  input_schema = object no_fields;
  output_schema = object no_fields;
  verification_strategy = "none";
  enabled = true;
}

abbrev pub system_privileged_shell : ToolDefinition
system_privileged_shell = record {
  name = "system.privileged_shell";
  description = "DEFINITION ONLY - never wired to a real shell; blocked by policy.";
  supported_action_types = "privileged" ∷ [];
  default_permission_level = PermissionLevel.admin;
  default_risk_level = RiskLevel.critical;
  has_side_effects = true;
  supports_dry_run = false;
  input_schema = object no_fields;
  output_schema = object no_fields;
  verification_strategy = "none";
  enabled = true;
}

-- The registrations, in order.
pub register_all : List ToolDefinition → Tools → Outcome ToolError Tools
register_all [] tools = ok tools
register_all (tool ∷ rest) tools = do tools' ← register tools tool false; register_all rest tools'

unfoldable pub default_definitions : List ToolDefinition
default_definitions =
    research_read ∷ plan_create ∷ artifact_draft ∷ file_create_sandboxed ∷ mock_external_action
    ∷ communication_send_email ∷ content_publish ∷ resource_delete_external ∷ finance_spend_money
    ∷ system_install_software ∷ system_privileged_shell ∷ []

unfoldable pub build_default_tool_registry : Outcome ToolError Tools
unfolding register_all default_definitions
build_default_tool_registry = register_all default_definitions []
