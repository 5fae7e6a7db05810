-- ===== src/Translate/Claude/Stored.antt =====
-- internal/translate/claude_request.go: each write into a map finds one that is not nil, so that it does
-- not panic.
use opencode_proxy_api.Base.{String, true, ◌==◌, List, none, some, ◌≡◌, refl}
use opencode_proxy_api.Json.{JsonPackage}
use opencode_proxy_api.Translate.Claude.{
  RawMap, RawPackage, lookup, string_or_empty, unmarshal_string,
}
use opencode_proxy_api.Translate.Claude.Request.{lacks_call_id}

-- rewriteAll writes under a key that it has found.
found-some :
    (key t : String) (m : RawMap)
    → lookup key m ≡ some t
    → (es : List (String × String)) × (m ≡ some es)
unfolding lookup
found-some key t none e = cc e
found-some key t (some es) e = (es, refl)

no_tool : ("" == "tool") ≡ true → ⊥
no_tool e = cc e

-- rewriteMessages writes the identifier of a message that has the role of a tool.
lacking-some :
    (pkg : RawPackage) (json : JsonPackage) (m : RawMap)
    → lacks_call_id pkg json (string_or_empty pkg (lookup "role" m)) m ≡ true
    → (es : List (String × String)) × (m ≡ some es)
unfolding lacks_call_id lookup string_or_empty unmarshal_string
lacking-some pkg json none e = absurd (no_tool e)
lacking-some pkg json (some es) e = (es, refl)
