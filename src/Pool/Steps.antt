-- ===== src/Pool/Steps.antt =====
-- The life of a pool: loading it, and the operations on it in any order.
use native.Mathlib.Nat.{mod-lt}
use opencode_proxy_api.Base.{
  suc, ◌+◌, ◌%◌, ◌<◌, String, Bool, true, none, some, length, ◌≡◌, refl, List, ◌∷◌, arith,
  AllBelow-of, inl, inr, length-replicate, get_or-replicate, ok, ℤ, index_of_lt,
}
use opencode_proxy_api.Config.Transport.{Net}
use opencode_proxy_api.Pool.{ProxyPool, rotate, current_of}
use opencode_proxy_api.Pool.Invariant.{Counted, Cached, IsValid}
use opencode_proxy_api.Pool.Load.{FileRead, fresh_pool, load_proxy_pool, load-fresh}

module _ (net : Net) where
  pub fresh_pool-IsValid :
      (x : String) (xs : List String) (timeout : ℤ) (force_ipv6 : Bool)
      → IsValid net (fresh_pool (x ∷ xs) timeout force_ipv6)
  unfolding fresh_pool
  fresh_pool-IsValid x xs timeout force_ipv6 = record {
    filled = omega arith;
    in_range = omega arith;
    healthy_length = length-replicate _ true;
    counts_length = length-replicate _ 0;
    cooldown_length = length-replicate _ _;
    cache_length = length-replicate _ none;
    counted =
        AllBelow-of (Counted (fresh_pool (x ∷ xs) timeout force_ipv6)) (suc (length xs))
          (λ i. inr (rw get_or-replicate (omega arith)));
    cached =
        AllBelow-of (Cached net (fresh_pool (x ∷ xs) timeout force_ipv6)) (suc (length xs))
          (λ i. inl (get_or-replicate (suc (length xs)) i none));
  }

  -- A pool that LoadProxyPool returns is well formed.
  pub load-IsValid :
      (read : String → FileRead) (path : String) (timeout : ℤ) (force_ipv6 : Bool) (inline : String)
      (p : ProxyPool)
      → load_proxy_pool read path timeout force_ipv6 inline ≡ ok (some p)
      → IsValid net p
  load-IsValid read path timeout force_ipv6 inline p e =
      let (x, xs, same) = load-fresh read path timeout force_ipv6 inline p e in
      rw same (fresh_pool-IsValid x xs timeout force_ipv6)

  -- Rotate of a well-formed pool returns, keeps it well formed, and makes the next proxy, cyclically,
  -- the active one.
  pub rotate_lem :
      (p : ProxyPool)
      → IsValid net p
      → (q : ProxyPool) × (url : String) × (rotate p ≡ ok (q, url))
        × IsValid net q
        × (q.current ≡ (p.current + 1) % length p.proxies)
        × (current_of q ≡ ok url)
  unfolding rotate current_of
  rotate_lem p v =
      let lt : (p.current + 1) % length p.proxies < length p.proxies = mod-lt _ v.filled in
      let (url, at) = index_of_lt p.proxies _ lt in
      (
        record p { current = (p.current + 1) % length p.proxies },
        url,
        ground arith,
        record {
          filled = v.filled;
          in_range = lt;
          healthy_length = v.healthy_length;
          counts_length = v.counts_length;
          cooldown_length = v.cooldown_length;
          cache_length = v.cache_length;
          counted = v.counted;
          cached = v.cached;
        },
        refl,
        at,
      )
