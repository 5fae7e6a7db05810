-- ===== src/Pool/Affinity.antt =====
-- Session affinity: what a session's choice of proxy depends on.
use native.Mathlib.Nat.{mod-lt}
use opencode_proxy_api.Base.{
  ℕ, zero, suc, ◌+◌, ◌<◌, String, List, Option, none, some, get_or, length, ◌≡◌, refl, ap, ◌∙◌,
  arith, ok,
}
use opencode_proxy_api.Config.Transport.{Client, Net}
use opencode_proxy_api.Pool.{
  ProxyPool, rotate, available, fallback, select_index, preferred_index, client_for_session,
}
use opencode_proxy_api.Pool.Invariant.{IsValid}
use opencode_proxy_api.Pool.Select.{select_index_lt}
use opencode_proxy_api.Pool.Clients.{built, chosen, client_for_index_lem, client_for_session_form}

module _ (p : ProxyPool) (current : ℕ) (cache : List (Option Client)) where
  -- The pool with another active proxy and another cache.
  abbrev moved : ProxyPool
  moved = record p { current = current; client_cache = cache }

  fallback-moved :
      (now preferred rounds i : ℕ)
      → fallback moved now preferred rounds i ≡ fallback p now preferred rounds i
  unfolding fallback available
  fallback-moved now preferred zero i = refl
  fallback-moved now preferred (suc rounds) i = rw (fallback-moved now preferred rounds (i + 1))

  select_index-moved :
      (now preferred : ℕ) → select_index moved now preferred ≡ select_index p now preferred
  unfolding select_index available
  select_index-moved now preferred = rw (fallback-moved now preferred (length p.proxies) 0)

  chosen-moved :
      (now : ℕ) (session : String)
      → select_index moved now (preferred_index moved session)
        ≡ select_index p now (preferred_index p session)
  unfolding preferred_index
  chosen-moved now session = select_index-moved now _

pub preferred_index_lt :
    (p : ProxyPool) (session : String)
    → 0 < length p.proxies
    → preferred_index p session < length p.proxies
unfolding preferred_index
preferred_index_lt p session h = mod-lt _ h

module _ (net : Net) where
  -- If a client can be built for the proxy that a session settles on, ClientForSession returns it,
  -- keeps the pool well formed, leaves this client in its cache for that proxy, and returns it to the
  -- session the next time at the same time.
  pub client_for_session_sticky :
      (p : ProxyPool) (now : ℕ) (session : String) (c : Client)
      → IsValid net p
      → built net p (chosen net p now session) ≡ ok c
      → (q : ProxyPool) × (client_for_session net (some p) now session ≡ ok (q, c))
        × IsValid net q
        × (get_or q.client_cache (chosen net p now session) none ≡ some c)
        × (client_for_session net (some q) now session ≡ ok (q, c))
  client_for_session_sticky p now session c v b =
      let lt =
        select_index_lt p now (preferred_index p session) (preferred_index_lt p session v.filled) in
      let (q, served, s) = client_for_index_lem net p (chosen net p now session) c v lt b in
      let same : chosen net q now session ≡ chosen net p now session =
        ap (λ r. chosen net r now session) s.kept
        ∙ chosen-moved p p.current q.client_cache now session in
      (
        q,
        client_for_session_form net p now session v ∙ served,
        s.valid,
        s.in_cache,
        rw (client_for_session_form net q now session s.valid, same) s.again,
      )

pub rotate_kept :
    (p q : ProxyPool) (url : String) → rotate p ≡ ok (q, url) → q ≡ record p { current = q.current }
unfolding rotate
rotate_kept p q url e = ground arith

-- Rotating the pool never changes the proxy that a session settles on.
pub rotate_keeps_sessions :
    (p q : ProxyPool) (url session : String) (now : ℕ)
    → rotate p ≡ ok (q, url)
    → select_index q now (preferred_index q session)
      ≡ select_index p now (preferred_index p session)
rotate_keeps_sessions p q url session now e =
    ap (λ r. select_index r now (preferred_index r session)) (rotate_kept p q url e)
    ∙ chosen-moved p q.current p.client_cache now session
