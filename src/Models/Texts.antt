-- ===== src/Models/Texts.antt =====
-- The texts of an action that the scanners look at: `_iter_text` of sentinel/dlp/scanner.py and of
-- sentinel/classifiers/injection_detector.py, which are the same.
use osl_agent_sentinel.Prelude.{
  String, Option, none, some, List, [], ◌∷◌, ◌++◌, ◌==◌, string_eq, if◌then◌else◌,
}
use osl_agent_sentinel.Models.Value.{
  Value, str, list, Items, no_items, item, Fields, no_fields, entry,
}
use osl_agent_sentinel.Models.Action.{Action}

-- The texts among the items of a list.
unfoldable pub item_texts : Items → List String
item_texts no_items = []
item_texts (item (str s) items) = s ∷ item_texts items
item_texts (item _ items) = item_texts items

abbrev pub value_texts : Value → List String
unfolding item_texts
value_texts (str s) = s ∷ []
value_texts (list items) = item_texts items
value_texts _ = []

unfoldable pub field_texts : Fields → List String
unfolding item_texts
field_texts no_fields = []
field_texts (entry _ v fields) = value_texts v ++ field_texts fields

abbrev pub intent_texts : Option String → List String
intent_texts none = []
intent_texts (some s) = if s == "" then [] else s ∷ []

unfoldable pub iter_text : Action → List String
unfolding field_texts
iter_text action = intent_texts action.intent ++ field_texts action.arguments
