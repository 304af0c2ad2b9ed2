-- ===== src/Siem/Transports.antt =====
-- The two transports of siem_exporter.py, and how one is chosen. The HTTP client and the environment
-- are parameters.
use osl_agent_sentinel.Prelude.{
  ℕ, String, Option, none, some, List, [], ◌∷◌, ◌++◌, leb, ◌==◌, string_eq, if◌then◌else◌, Outcome,
  ok, err, Error,
}
use osl_agent_sentinel.Prelude.Dict.{Dict}
use osl_agent_sentinel.Prelude.Text.{concat, join}
use osl_agent_sentinel.Siem.{Transport}

-- `StdoutTransport.send`, on the texts that were written.
unfoldable pub stdout_send : Transport (List String)
unfolding concat
stdout_send [] written = (ok tt, written)
stdout_send (line ∷ lines) written = stdout_send lines (written ++ concat (line ∷ "\n" ∷ []) ∷ [])

pub record HttpTransportConfig : Type 0 where
  pub endpoint : String
  pub headers : Dict String
  pub timeout_seconds : ℕ

-- `client.post` of a payload to an endpoint under headers, on the state of the network: a status code.
abbrev pub Post : Type 0 → Type 0
Post N = HttpTransportConfig → String → N → Outcome ℕ × N

abbrev pub check_status : Outcome ℕ → Outcome (Unit {0})
check_status (err e) = err e
check_status (ok status) = if leb 400 status then err Error.runtime_error else ok tt

-- `HTTPTransport.send`
unfoldable pub http_send : {N : Type 0} → Post N → HttpTransportConfig → Transport N
unfolding join
http_send post config batch n =
    let (status, n') = post config (join "\n" batch) n in (check_status status, n')

pub data TransportKind : Type 0 where
  http_transport : HttpTransportConfig → TransportKind
  stdout_transport : TransportKind

abbrev pub or_blank : Option String → String
or_blank none = ""
or_blank (some s) = s

abbrev pub http_headers : String → Dict String
unfolding concat
http_headers token =
    if token == ""
    then ("content-type", "application/x-ndjson") ∷ []
    else ("content-type", "application/x-ndjson")
      ∷ ("authorization", concat ("Bearer " ∷ token ∷ []))
      ∷ []

-- `_default_transport`, by `os.getenv`
unfoldable pub default_transport : (String → Option String) → TransportKind
unfolding concat
default_transport getenv =
    let endpoint = or_blank (getenv "SENTINEL_SIEM_HTTP_ENDPOINT") in
    if endpoint == ""
    then stdout_transport
    else http_transport (record {
      endpoint = endpoint;
      headers = http_headers (or_blank (getenv "SENTINEL_SIEM_HTTP_TOKEN"));
      timeout_seconds = 5;
    })
