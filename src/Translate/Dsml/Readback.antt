-- ===== src/Translate/Dsml/Readback.antt =====
-- internal/translate/dsml.go: messageJSONToSSE reads what RewriteClaudeMessageDSML wrote.
use opencode_proxy_api.Json.{Json}
