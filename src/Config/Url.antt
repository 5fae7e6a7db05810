-- ===== src/Config/Url.antt =====
-- config/config.go: proxy URLs, and their masking in logs. net/url is a parameter.
use opencode_proxy_api.Base.{String, Option, none, some, ◌==◌, if◌then◌else◌}
use opencode_proxy_api.Base.Text.{append}

pub record Userinfo : Type 0 where
  pub username : String
  pub password : Option String

-- What the program reads of a url.URL.
pub record Url : Type 0 where
  pub scheme : String
  pub user : Option Userinfo
  pub host : String
  pub escaped_path : String
  pub raw_query : String

-- net/url: `parse` is url.Parse, `print` its String method.
pub record UrlPackage : Type 0 where
  pub parse : String → Option Url
  pub print : Url → String

masked : Url → Userinfo → String
masked u info =
    let rest = append info.username (append ":***@" (append u.host u.escaped_path)) in
    let rest' = if u.raw_query == "" then rest else append rest (append "?" u.raw_query) in
    if u.scheme == "" then rest' else append u.scheme (append "://" rest')

redact_user : UrlPackage → Url → Option Userinfo → String
unfolding masked
redact_user pkg u none = pkg.print u
redact_user pkg u (some info) = elim info.password [ none ↦ pkg.print u | some _ ↦ masked u info ]

redact_parsed : UrlPackage → Option Url → String
unfolding redact_user
redact_parsed pkg none = "<invalid proxy url>"
redact_parsed pkg (some u) = redact_user pkg u u.user

-- RedactProxyURL
unfoldable pub redact_proxy_url : UrlPackage → String → String
unfolding redact_parsed
redact_proxy_url pkg proxy_url =
    if proxy_url == "" then "" else redact_parsed pkg (pkg.parse proxy_url)
