-- ===== src/Examples/Scanners.antt =====
-- The scanners, the sandbox and the exporter's task at concrete inputs.

use mathlib.Core.List.{Memᴰ}
use osl_agent_sentinel.Prelude.{
  ◌≡◌, ◌↔◌, refl, arith, String, true, Option, none, some, List, [], ◌∷◌, ◌==◌, string_eq,
  if◌then◌else◌, err, Error,
}
use osl_agent_sentinel.Prelude.Text.{is_in, text_length, take_chars, drop_chars}
use osl_agent_sentinel.Score.{dec4}
use osl_agent_sentinel.Models.Value.{str, list, no_items, item, no_fields, entry}
use osl_agent_sentinel.Models.Action.{Action, ActionType}
use osl_agent_sentinel.Models.Texts.{iter_text}
use osl_agent_sentinel.Dlp.{DlpRule, DlpScanner, new_dlp_scanner, dlp_factor, redact, scan_payload}
use osl_agent_sentinel.Dlp.Found.{IsFound, scan_payload-IsFound}
use osl_agent_sentinel.Injection.{
  InjectionModel, InjectionDetector, InjectionNumerals, default_injection_config, scan_injection,
}
use osl_agent_sentinel.Injection.Detects.{scan_injection-model_err}
use osl_agent_sentinel.Intent.{
  IntentTexts, IntentClassifier, default_intent_config, classify_intent, missing_factor,
}
use osl_agent_sentinel.Intent.Bounds.{IsGraded, classify_intent-IsGraded}
use osl_agent_sentinel.Sandbox.{returned, SandboxHost, default_limits, run_sandbox}
use osl_agent_sentinel.Sandbox.Budget.{IsAccounted, run_sandbox-IsAccounted}
use osl_agent_sentinel.Siem.{Exporter, flush_loop}
use osl_agent_sentinel.Siem.Loop.{
  new_task, enqueued, round_done, run_events, IsBounded, IsEnded, flush_loop-Terminates,
  run_events-IsBounded,
}
use osl_agent_sentinel.Siem.Transports.{stdout_send}
use osl_agent_sentinel.Examples.Data.{action_of}

-- A search that finds the pattern itself.
abbrev search : String → String → Option String
search pattern text = if is_in pattern text then some pattern else none

abbrev action : Action
action = record (action_of ActionType.memory_write "did:web:agent") {
  arguments = entry "note" (list (item (str "secret words") no_items)) no_fields;
  intent = none;
}

abbrev secret_rule : DlpRule
secret_rule = record {
  code = "dlp.secret";
  pattern = "secret";
  severity = dec4 5_000;
  message = "m";
  references = "R1";
}

abbrev scanner : DlpScanner
scanner = new_dlp_scanner (some (secret_rule ∷ [])) true

scan_payload-IsFound_example :
    Memᴰ (dlp_factor secret_rule "secret") (scan_payload search scanner action) ↔ (
      (true ≡ true)
      × IsFound search (secret_rule ∷ []) (iter_text action) (dlp_factor secret_rule "secret"))
scan_payload-IsFound_example =
    scan_payload-IsFound search scanner action (dlp_factor secret_rule "secret")

-- It is found.
secret_reported : scan_payload search scanner action ≡ dlp_factor secret_rule "secret" ∷ []
unfolding scan_payload iter_text redact
secret_reported = refl

redacted : redact "AKIA12345678" ≡ "AK********78"
unfolding redact text_length take_chars drop_chars
redacted = refl

-- A search that finds the first pattern anywhere.
abbrev first_pattern : String
first_pattern =
    "(?i)\\bignore\\s+(?:all\\s+)?(?:previous|prior|earlier)\\s+(?:instructions?|rules?)\\b"

abbrev anywhere : String → String → Option String
anywhere pattern text = if pattern == first_pattern then some "ignore all rules" else none

abbrev nums : InjectionNumerals
nums = record { str_of_count = λ n. "1"; fixed3 = λ s. "0.000" }

abbrev down : InjectionModel
down text = err Error.raised

abbrev detector : InjectionDetector
detector = record { model = some down; config = default_injection_config }

scan_injection-model_err_example :
    scan_injection anywhere nums detector action
    ≡ scan_injection anywhere nums (record detector { model = none }) action
unfolding iter_text
scan_injection-model_err_example =
    scan_injection-model_err anywhere nums detector down action "secret words" Error.raised refl
      (Memᴰ.head refl) refl

abbrev texts : IntentTexts
texts = record { strip = λ s. s; lower = λ s. s; fixed3 = λ o. "0.000" }

abbrev classifier : IntentClassifier
classifier = record { embeddings = none; config = default_intent_config }

classify_intent-IsGraded_example : IsGraded texts classifier action (missing_factor ∷ [])
unfolding classify_intent
classify_intent-IsGraded_example =
    classify_intent-IsGraded texts classifier action (missing_factor ∷ []) refl refl

-- A workload of five bytes and a budget of four.
abbrev host : SandboxHost String String
host = record {
  wait_for = λ workload ms. returned workload;
  engine_guard = none;
  size_of = λ output. some 5;
}

run_sandbox-IsAccounted_example :
    IsAccounted host.size_of 4
      (returned "hello")
      (run_sandbox host (record default_limits { max_result_bytes = 4 }) 1 "hello")
run_sandbox-IsAccounted_example =
    run_sandbox-IsAccounted host (record default_limits { max_result_bytes = 4 }) 1 "hello" refl

abbrev exporter : Exporter
exporter = record { max_outbox = 3; batch_size = 2; outbox = [] }

-- Three lines, and two more that arrive during the first send.
abbrev backlog : Exporter
backlog = record exporter { outbox = "a" ∷ "b" ∷ "c" ∷ [] }

abbrev arrivals : List (List String)
arrivals = ("d" ∷ "e" ∷ []) ∷ []

flush_loop-Terminates_example :
    (flush_loop stdout_send 7 arrivals backlog [] ≡ flush_loop stdout_send 5 arrivals backlog [])
    × IsEnded stdout_send 2 (flush_loop stdout_send 7 arrivals backlog [])
flush_loop-Terminates_example =
    flush_loop-Terminates stdout_send 7 5 arrivals backlog [] (omega arith) (omega arith)

run_events-IsBounded_example : IsBounded stdout_send 1_000 3 (
    run_events stdout_send 1_000
      (new_task exporter [])
      (enqueued "a" ∷ enqueued "b" ∷ round_done arrivals ∷ []))
run_events-IsBounded_example =
    run_events-IsBounded stdout_send 1_000 exporter []
      (enqueued "a" ∷ enqueued "b" ∷ round_done arrivals ∷ []) refl
