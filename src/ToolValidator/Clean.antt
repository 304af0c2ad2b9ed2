-- ===== src/ToolValidator/Clean.antt =====
-- When the tool validator raises no risk factor.
use osl_agent_sentinel.Prelude.{
  ℕ, String, true, false, ◌≡◌, refl, arith, ◌↔◌, ◌⊎◌, Option, none, some, [], string_eq, eq_iff, ok,
  subst,
}
use osl_agent_sentinel.Prelude.Dict.{lookup}
use osl_agent_sentinel.Models.Value.{Fields}
use osl_agent_sentinel.Models.Action.{Action}
use osl_agent_sentinel.Models.Identity.{Identity, has_capability}
use osl_agent_sentinel.ToolValidator.{
  ToolSpec, ToolRegistry, SchemaCheck, valid, is_empty, check_spec, check_tool, check_named,
  validate,
}

module _ (jsonschema_validate : Fields → Fields → SchemaCheck) (now : ℕ) where
  -- The identity, where there is one, holds the capability of the tool.
  abbrev pub Holds : ToolSpec → Option Identity → Type 0
  Holds spec none = Unit
  Holds spec (some i) = has_capability now i spec.capability none ≡ true

  -- A tool that is not quarantined, permitted to the identity, and given arguments that its schema
  -- accepts.
  abbrev pub Permitted : ToolSpec → Action → Option Identity → Type 0
  Permitted spec action identity =
      (spec.quarantined ≡ false)
      × Holds spec identity
      × ((is_empty spec.args_schema ≡ true)
          ⊎ (jsonschema_validate action.arguments spec.args_schema ≡ valid))

  check_spec-clean :
      (spec : ToolSpec) (action : Action) (identity : Option Identity)
      → (check_spec jsonschema_validate now spec action identity ≡ ok [])
        ↔ Permitted spec action identity
  check_spec-clean spec action none = ground arith
  check_spec-clean spec action (some i) = ground arith

  -- No action or tool of the action escapes: either it names no tool, or its tool is registered
  -- under that name and permitted.
  abbrev pub IsClean : ToolRegistry → Option String → Action → Option Identity → Type 0
  IsClean tools none action identity = Unit
  IsClean tools (some tool) action identity =
      (tool ≡ "")
      ⊎ ((spec : ToolSpec) × (lookup tool tools ≡ some spec) × Permitted spec action identity)

  check_tool-clean :
      (tool : String) (found : Option ToolSpec) (action : Action) (identity : Option Identity)
      → (check_tool jsonschema_validate now tool found action identity ≡ ok [])
        ↔ ((spec : ToolSpec) × (found ≡ some spec) × Permitted spec action identity)
  check_tool-clean tool none action identity = (λ h. cc, λ (spec, e, p). cc)
  check_tool-clean tool (some spec) action identity = (
    λ h. (spec, refl, (check_spec-clean spec action identity).0 h),
    λ (found, e, p).
        let same : found ≡ spec = cc in
        (check_spec-clean spec action identity).1 (subst (λ x. Permitted x action identity) same p),
  )

  check_named-IsClean :
      (tools : ToolRegistry) (tool : Option String) (action : Action) (identity : Option Identity)
      → (check_named jsonschema_validate now tools tool action identity ≡ ok [])
        ↔ IsClean tools tool action identity
  check_named-IsClean tools none action identity = (λ h. tt, λ c. refl)
  check_named-IsClean tools (some tool) action identity =
      ground (arith, eq_iff tool "", check_tool-clean tool (lookup tool tools) action identity)

  -- The validator returns no risk factor exactly if the action names no tool, or its tool is
  -- registered under that name and not quarantined, the identity (where it is known) holds the
  -- capability, and the schema, where there is one, accepts the arguments.
  pub validate-IsClean :
      (tools : ToolRegistry) (action : Action) (identity : Option Identity)
      → (validate jsonschema_validate now tools action identity ≡ ok [])
        ↔ IsClean tools action.tool action identity
  unfolding validate
  validate-IsClean tools action identity = check_named-IsClean tools action.tool action identity
