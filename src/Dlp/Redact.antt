-- ===== src/Dlp/Redact.antt =====
-- What a snippet of the DLP scanner shows of the text that it is about.
use Prim.Native.String
use Prim.Native.String.append
use osl_agent_sentinel.Prelude.{String}
