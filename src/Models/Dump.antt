-- ===== src/Models/Dump.antt =====
-- The JSON form of an action: `model_dump(mode="json")` by the fields of sentinel/models/action.py.
-- The text of a time is a parameter; ids are texts already.
use osl_agent_sentinel.Prelude.{ℕ, String, Option, none, some, [], ◌∷◌}
use osl_agent_sentinel.Prelude.Dict.{Dict}
use osl_agent_sentinel.Models.Value.{pos, Value, null, int, str, dict, Fields, no_fields, entry}
use osl_agent_sentinel.Models.Action.{Action, ActionContext, type_value}

abbrev pub text_or_null : Option String → Value
text_or_null none = null
text_or_null (some s) = str s

abbrev pub count_or_null : Option ℕ → Value
count_or_null none = null
count_or_null (some n) = int (pos n)

abbrev pub dump_texts : Dict String → Fields
dump_texts [] = no_fields
dump_texts ((k, v) ∷ d) = entry k (str v) (dump_texts d)

unfoldable pub dump_context : ActionContext → Value
dump_context c = dict (
    entry "session_id" (str c.session_id) (
      entry "parent_action_id" (text_or_null c.parent_action_id) (
        entry "correlation_id" (text_or_null c.correlation_id) (
          entry "tenant_id" (str c.tenant_id) (
            entry "environment" (str c.environment) (
              entry "invoked_by" (text_or_null c.invoked_by) (
                entry "plan_id" (text_or_null c.plan_id) (
                  entry "step_index" (count_or_null c.step_index)
                    (entry "tags" (dict (dump_texts c.tags)) no_fields)))))))))

-- `Action.canonical_dict`: without the digest and the time.
unfoldable pub canonical_dict : Action → Value
unfolding dump_context
canonical_dict a = dict (
    entry "id" (str a.id) (
      entry "type" (str (type_value a.type)) (
        entry "agent_did" (str a.agent_did) (
          entry "tenant_id" (str a.tenant_id) (
            entry "tool" (text_or_null a.tool) (
              entry "arguments" (dict a.arguments) (
                entry "intent" (text_or_null a.intent)
                  (entry "context" (dump_context a.context) no_fields))))))))

-- `model_dump(mode="json", by_alias=True)`
unfoldable pub dump_action : (ℕ → String) → Action → Value
unfolding dump_context
dump_action isoformat a = dict (
    entry "id" (str a.id) (
      entry "type" (str (type_value a.type)) (
        entry "agent_did" (str a.agent_did) (
          entry "tenant_id" (str a.tenant_id) (
            entry "tool" (text_or_null a.tool) (
              entry "arguments" (dict a.arguments) (
                entry "payload_digest" (text_or_null a.payload_digest) (
                  entry "intent" (text_or_null a.intent) (
                    entry "context" (dump_context a.context)
                      (entry "created_at" (str (isoformat a.created_at)) no_fields))))))))))
