-- ===== src/Lib.antt =====
-- osl-agent-sentinel: the decision core of the Python control plane (src/sentinel).
--
-- An action of an agent comes to the decision pipeline. The pipeline resolves the agent's identity
-- behind a circuit breaker, runs five classifiers that return risk factors, asks the policy engine
-- for the rules that match, reconciles rules and risk into a verdict, and gates the verdict by the
-- tier that the trust scorer gives the identity.
--
-- Prelude        lists, dicts, texts and exceptions; Error names the classes of
--                src/sentinel/utils/errors.py that the code tells apart, without messages.
-- Score          floats in [0, 1] as exact multiples of 10 ^ -16, and round(x, 4). Sums and
--                products are exact where the source rounds to binary floats.
-- Models         src/sentinel/models: actions, decisions, identities, policies, JSON values.
-- Runtime        what the program takes from Python's library, as parameters.
-- Breaker        src/sentinel/core/circuit_breaker.py: each locked section is one function, and
--                concurrent calls are interleavings of these (Steps).
-- Identity       src/sentinel/identity/resolver.py and trust_scorer.py; Store is the protocol of an
--                identity store, with its laws, and the resolver over any such store.
-- PolicyEngine   src/sentinel/core/policy_engine.py, with the exceptions that ill-typed match
--                expressions raise.
-- Pipeline       src/sentinel/core/pipeline.py: Risk is _aggregate_risk and the texts of an
--                explanation, Reconcile is _reconcile, Evaluate is evaluate and _safe_run.
-- Interceptor    src/sentinel/core/interceptor.py: the digest, the pipeline, the latency, and the
--                helpers of the API routes.
-- Gateway        src/sentinel/gateway/mcp_gateway.py over the interceptor; the tools act on a world
--                of their own.
-- ToolValidator  src/sentinel/classifiers/tool_validator.py; jsonschema is a parameter.
-- McpValidators  src/sentinel/gateway/mcp_validators.py; urlparse and lower are parameters. The checks
--                stand alone: the gateway does not call them.
-- Anomaly        src/sentinel/classifiers/anomaly_detector.py; log10 and number formats are
--                parameters, and rates are compared without rounding.
-- Approval       src/sentinel/core/approval.py with the in-memory backend.
-- Tenancy        src/sentinel/tenancy/manager.py.
-- Client         src/sentinel/client.py; HTTP is a parameter.
-- Adapters       src/sentinel/adapters/kong.py, aws_apigw.py and envoy.py over an interceptor.
-- SafeMode       src/sentinel/resilience/safe_mode.py.
-- RateLimit      src/sentinel/api/middleware/rate_limit.py, with tokens in exact units.
-- Signatures     what is signed with Ed25519 over canonical JSON (src/sentinel/utils/canonical.py and
--                crypto.py: Canonical and Scheme): messages between agents (comms/iatp.py: Iatp),
--                actions (identity/signing.py: Signing), memory receipts (verification/cmvk.py: Cmvk),
--                and policy bundles (policy_pac/loader.py and policy sign of cli.py: Loader). The
--                scheme, the encoders and the codec of a bundle are parameters; what they are
--                assumed to do stands in the records IsCanonical, IsSound, IsCodec and in
--                IsFaithful.
-- Cache          src/sentinel/core/cache.py: its two files as optional texts.
-- Dlp            src/sentinel/dlp/scanner.py; the search of a compiled pattern is a parameter.
-- Injection      src/sentinel/classifiers/injection_detector.py; the search and the optional model,
--                which may raise, are parameters.
-- Intent         src/sentinel/classifiers/intent_classifier.py, with overlaps as exact fractions;
--                the embedding provider is a parameter.
-- Sandbox        src/sentinel/gateway/sandbox.py; how a workload ends is a parameter.
-- Api            src/sentinel/api: Auth is middleware/auth.py and request_id.py, Routes is
--                dependencies.py and routes/*.py over the interceptor.
-- Bootstrap      build_default_interceptor of src/sentinel/bootstrap.py: the five classifiers in the
--                pipeline, and the bundle that a process starts with, from its file or the cache.
-- RedTeam        src/sentinel/redteam/harness.py: the scenarios, the run and its report.
-- Siem           src/sentinel/observability/siem_exporter.py: the outbox and its flush over any
--                transport, the retry loop (Loop) and the two transports (Transports).
-- GuardChecker   src/sentinel/static_analysis/guard_checker.py over a syntax tree; the parser and
--                the file system are parameters.
-- Examples       tests, and the theorems at concrete inputs.
--
-- Ids are texts and times are counts, of microseconds for the breaker, the anomaly window and
-- the rate limit. Loops are recursions on a list or a syntax tree, except that of the exporter's
-- flush, which runs on as much fuel as there are lines in the outbox and lines that arrive while
-- it sends: a round that goes on takes at least one. The exporter's task and the policy loader
-- are followed over any list of events. Not modelled are log lines, metrics and the validation
-- by pydantic, but for the length of a DID and the range of a severity that an injection model
-- makes, the loading of keys, the health routes, the wiring of api/app.py, the rest of
-- bootstrap.py and of cli.py, and the parts of the control plane that no line above names.
pub mod Prelude
pub mod Score
pub mod Models
pub mod Runtime
pub mod Breaker
pub mod Identity
pub mod PolicyEngine
pub mod Pipeline
pub mod Interceptor
pub mod Gateway
pub mod ToolValidator
pub mod McpValidators
pub mod Anomaly
pub mod Approval
pub mod Tenancy
pub mod Client
pub mod Adapters
pub mod SafeMode
pub mod RateLimit
pub mod Signatures
pub mod Cache
pub mod Dlp
pub mod Injection
pub mod Intent
pub mod Sandbox
pub mod Api
pub mod Bootstrap
pub mod RedTeam
pub mod Siem
pub mod GuardChecker
mod Examples
