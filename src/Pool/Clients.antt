-- ===== src/Pool/Clients.antt =====
-- ClientForSession and its cache of clients.
use native.Mathlib.Decide.{ℕ_discrete}
use opencode_proxy_api.Base.{
  ℕ, ◌<◌, String, Option, none, some, length, ◌≡◌, refl, ◌∙◌, arith, AllBelow-at, AllBelow-map, inl,
  inr, ap, length-set, get_or, set, get_or-set_self, get_or-set_ne, Result, ok, err, index-get_or,
  eqb, false,
}
use opencode_proxy_api.Config.Transport.{Client, Net, new_http_client}
use opencode_proxy_api.Pool.{
  ProxyPool, select_index, preferred_index, build_client, client_for_index, client_for_session,
}
use opencode_proxy_api.Pool.Invariant.{Cached, IsValid}

module _ (net : Net) where
  -- The client that the pool's settings give for the proxy at `i`.
  abbrev pub built : ProxyPool → ℕ → Result Client
  built p i = new_http_client net p.timeout (get_or p.proxies i "") p.force_ipv6

  -- What a call that returns `c` for the proxy at `i` leaves: a well-formed pool that differs only
  -- in its cache, has `c` in it for this proxy, and returns it the next time.
  pub record Serves (p : ProxyPool) (i : ℕ) (c : Client) (q : ProxyPool) : Type 0 where
    pub valid : IsValid net q
    pub kept : q ≡ record p { client_cache = q.client_cache }
    pub in_cache : get_or q.client_cache i none ≡ some c
    pub again : client_for_index net q i ≡ ok (q, c)

  module _ (p : ProxyPool) (i : ℕ) (c : Client) (v : IsValid net p) (lt : i < length p.proxies)
      (b : built p i ≡ ok c) where
    abbrev stored : ProxyPool
    stored = record p { client_cache = set p.client_cache i (some c) }

    Cached-stored : (j : ℕ) → Cached net p j → Cached net stored j
    Cached-stored j h = elim (ℕ_discrete i j) [
      | yes q ↦ inr (
        c,
        rw (← q) (get_or-set_self p.client_cache i (some c) none (omega (arith, v.cache_length))),
        rw (← q) b,
      )
      | no ne ↦ rw (get_or-set_ne p.client_cache i j (some c) none ne) h
    ]

    stored-IsValid : IsValid net stored
    stored-IsValid = record {
      filled = v.filled;
      in_range = v.in_range;
      healthy_length = v.healthy_length;
      counts_length = v.counts_length;
      cooldown_length = v.cooldown_length;
      cache_length = length-set p.client_cache i (some c) ∙ v.cache_length;
      counted = v.counted;
      cached = AllBelow-map (Cached net p) (Cached net stored) _ (λ j _. Cached-stored j) v.cached;
    }

    build_client_lem : build_client net p i ≡ ok (stored, c)
    unfolding build_client
    build_client_lem = rw (index-get_or p.proxies i "" lt, b)

    hit :
        (o : Option Client)
        → get_or p.client_cache i none ≡ o
        → (q : ProxyPool) × (client_for_index net p i ≡ ok (q, c)) × Serves p i c q
    unfolding client_for_index
    hit none e = (
      stored,
      rw (e, client_for_index) build_client_lem,
      record {
        valid = stored-IsValid;
        kept = refl;
        in_cache = get_or-set_self p.client_cache i (some c) none (omega (arith, v.cache_length));
        again = rw (
          get_or-set_self p.client_cache i (some c) none (omega (arith, v.cache_length)),
          client_for_index,
        );
      },
    )
    hit (some c') e = elim (AllBelow-at (Cached net p) _ i v.cached lt) [
      | inl gone ↦ cc
      | inr (c'', at, genuine) ↦
          let same : c' ≡ c = cc in
          let found : client_for_index net p i ≡ ok (p, c) = rw (e, same, client_for_index) in
          (p, found, record { valid = v; kept = refl; in_cache = e ∙ ap some same; again = found })
    ]

  -- Where the pool has a client for a proxy, ClientForSession's `clientForIndex` returns it, and
  -- goes on to return the same one.
  pub client_for_index_lem :
      (p : ProxyPool) (i : ℕ) (c : Client)
      → IsValid net p
      → i < length p.proxies
      → built p i ≡ ok c
      → (q : ProxyPool) × (client_for_index net p i ≡ ok (q, c)) × Serves p i c q
  client_for_index_lem p i c v lt b = hit p i c v lt b (get_or p.client_cache i none) refl

  abbrev pub chosen : ProxyPool → ℕ → String → ℕ
  chosen p now session = select_index p now (preferred_index p session)

  pub client_for_session_form :
      (p : ProxyPool) (now : ℕ) (session : String)
      → IsValid net p
      → client_for_session net (some p) now session ≡ client_for_index net p (chosen p now session)
  unfolding client_for_session
  client_for_session_form p now session v =
      let e : eqb (length p.proxies) 0 ≡ false = ground (arith, v.filled) in rw e

  refused :
      (p : ProxyPool) (i : ℕ) (e : String)
      → IsValid net p
      → i < length p.proxies
      → built p i ≡ err e
      → (o : Option Client) → get_or p.client_cache i none ≡ o
      → client_for_index net p i ≡ err e
  unfolding client_for_index build_client
  refused p i e v lt b none gone =
      rw (gone, client_for_index) (rw (index-get_or p.proxies i "" lt, b))
  refused p i e v lt b (some c) there = elim (AllBelow-at (Cached net p) _ i v.cached lt) [
    | inl gone ↦ cc
    | inr (c', at, genuine) ↦ cc
  ]

  -- Where no client can be built for a proxy, there is none in the cache either.
  pub client_for_index_refused :
      (p : ProxyPool) (i : ℕ) (e : String)
      → IsValid net p
      → i < length p.proxies
      → built p i ≡ err e
      → client_for_index net p i ≡ err e
  client_for_index_refused p i e v lt b = refused p i e v lt b (get_or p.client_cache i none) refl
