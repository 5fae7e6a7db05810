-- ===== src/Pool/Load.antt =====
-- config/proxy_pool.go: LoadProxyPool. The file system is a parameter.
use opencode_proxy_api.Base.{
  String, Bool, true, ◌||◌, ◌&&◌, not, Option, none, some, List, [], ◌∷◌, ◌≡◌, ◌≢◌, arith,
  if◌then◌else◌, ◌==◌, Result, ok, err, panic, length, replicate, ℤ, pos, Bool-cases, inl, inr,
}
use opencode_proxy_api.Base.Text.{trim_space, has_prefix, contains}
use opencode_proxy_api.Pool.{ProxyPool}

-- What os.Open and the scanner come to.
pub data FileRead : Type 0 where
  open_failed : FileRead
  read_failed : FileRead
  lines : List String → FileRead

-- A line that the loop does not skip.
unfoldable pub is_proxy_line : String → Bool
is_proxy_line line = not (line == "" || has_prefix "#" line) && contains "://" line

-- The loop over the scanner's lines.
unfoldable pub proxy_lines : List String → List String
proxy_lines [] = []
proxy_lines (raw ∷ rest) =
    let line = trim_space raw in
    if is_proxy_line line then line ∷ proxy_lines rest else proxy_lines rest

-- A pool over `n` proxies, all healthy.
unfoldable pub fresh_pool : List String → ℤ → Bool → ProxyPool
fresh_pool proxies timeout force_ipv6 = record {
  proxies = proxies;
  current = 0;
  healthy = replicate (length proxies) true;
  failure_counts = replicate (length proxies) 0;
  cooldown_until = replicate (length proxies) (pos 0);
  client_cache = replicate (length proxies) none;
  force_ipv6 = force_ipv6;
  timeout = timeout;
}

unfoldable pub pool_of_lines : List String → ℤ → Bool → Result (Option ProxyPool)
unfolding fresh_pool
pool_of_lines [] timeout force_ipv6 = err "proxy pool file contains no valid proxies"
pool_of_lines (x ∷ xs) timeout force_ipv6 = ok (some (fresh_pool (x ∷ xs) timeout force_ipv6))

unfoldable pub pool_of_file : FileRead → ℤ → Bool → Result (Option ProxyPool)
unfolding pool_of_lines
pool_of_file open_failed timeout force_ipv6 = err "open proxy pool file"
pool_of_file read_failed timeout force_ipv6 = err "read proxy pool file"
pool_of_file (lines ls) timeout force_ipv6 = pool_of_lines (proxy_lines ls) timeout force_ipv6

abbrev pub inline_name : String
inline_name = "<inline-single-proxy>"

-- LoadProxyPool
unfoldable pub load_proxy_pool :
    (String → FileRead) → String → ℤ → Bool → String → Result (Option ProxyPool)
unfolding pool_of_file
load_proxy_pool read file_path timeout force_ipv6 inline_proxy =
    if file_path == ""
    then ok none
    else if file_path == inline_name
    then (if inline_proxy == ""
        then ok none
        else ok (some (fresh_pool (inline_proxy ∷ []) timeout force_ipv6)))
    else pool_of_file (read file_path) timeout force_ipv6

pool_of_lines-ok :
    (ls : List String) (timeout : ℤ) (force_ipv6 : Bool) (p : ProxyPool)
    → pool_of_lines ls timeout force_ipv6 ≡ ok (some p)
    → (x : String) × (xs : List String) × (p ≡ fresh_pool (x ∷ xs) timeout force_ipv6)
unfolding pool_of_lines
pool_of_lines-ok [] timeout force_ipv6 p e = cc
pool_of_lines-ok (x ∷ xs) timeout force_ipv6 p e = (x, xs, cc)

pool_of_file-ok :
    (f : FileRead) (timeout : ℤ) (force_ipv6 : Bool) (p : ProxyPool)
    → pool_of_file f timeout force_ipv6 ≡ ok (some p)
    → (x : String) × (xs : List String) × (p ≡ fresh_pool (x ∷ xs) timeout force_ipv6)
unfolding pool_of_file
pool_of_file-ok open_failed timeout force_ipv6 p e = cc
pool_of_file-ok read_failed timeout force_ipv6 p e = cc
pool_of_file-ok (lines ls) timeout force_ipv6 p e =
    pool_of_lines-ok (proxy_lines ls) timeout force_ipv6 p e

-- Whatever pool is loaded is fresh: it is not empty, and every proxy is healthy.
pub load-fresh :
    (read : String → FileRead) (path : String) (timeout : ℤ) (force_ipv6 : Bool) (inline : String)
    (p : ProxyPool)
    → load_proxy_pool read path timeout force_ipv6 inline ≡ ok (some p)
    → (x : String) × (xs : List String) × (p ≡ fresh_pool (x ∷ xs) timeout force_ipv6)
unfolding load_proxy_pool
load-fresh read path timeout force_ipv6 inline p e = elim (Bool-cases (path == "")) [
  | inl none_given ↦ ground arith
  | inr given ↦ elim (Bool-cases (path == inline_name)) [
    | inl single ↦ (inline, [], ground arith)
    | inr file ↦ pool_of_file-ok (read path) timeout force_ipv6 p (rw (given, file) at e)
  ]
]

pool_of_file-ne-panic :
    (f : FileRead) (timeout : ℤ) (force_ipv6 : Bool) → pool_of_file f timeout force_ipv6 ≢ panic
unfolding pool_of_file pool_of_lines
pool_of_file-ne-panic open_failed timeout force_ipv6 e = cc
pool_of_file-ne-panic read_failed timeout force_ipv6 e = cc
pool_of_file-ne-panic (lines ls) timeout force_ipv6 e =
    elim (proxy_lines ls) as (λ xs. pool_of_lines xs timeout force_ipv6 ≢ panic) [
      | [] ↦ λ h. cc
      | x ∷ xs ↦ λ h. cc
    ]
      e

-- Loading never panics.
pub load-ne-panic :
    (read : String → FileRead) (path : String) (timeout : ℤ) (force_ipv6 : Bool) (inline : String)
    → load_proxy_pool read path timeout force_ipv6 inline ≢ panic
unfolding load_proxy_pool
load-ne-panic read path timeout force_ipv6 inline =
    ground (arith, pool_of_file-ne-panic (read path) timeout force_ipv6)
