-- ===== src/Pool/Invariant.antt =====
-- The well-formedness of a pool, and that every operation keeps it.
use native.Mathlib.Decide.{ℕ_discrete}
use opencode_proxy_api.Base.{
  ℕ, ◌<◌, String, Bool, true, false, Option, none, some, length, ◌≡◌, refl, List, [], ◌∷◌, arith,
  AllBelow, AllBelow-map, ◌∙◌, Bool-cases, Option-cases, inl, inr, ◌⊎◌, if◌then◌else◌, length-set,
  get_or, set, get_or-set_self, get_or-set_ne, ok, ℤ, leb,
}
use opencode_proxy_api.Config.Transport.{Client, Net, new_http_client}
use opencode_proxy_api.Pool.{
  ProxyPool, mark_success, mark_failure, success_at, failure_at, next_failures, index_of,
  is_business_error,
}

-- A proxy that still counts as healthy has fewer than three failures in a row.
abbrev pub Counted : ProxyPool → ℕ → Type 0
Counted p i = (get_or p.healthy i false ≡ false) ⊎ (get_or p.failure_counts i 0 < 3)

module _ (net : Net) where
  -- A cached client is the one that would be built for its proxy.
  abbrev pub Cached : ProxyPool → ℕ → Type 0
  Cached p i =
      (get_or p.client_cache i none ≡ none)
      ⊎ ((c : Client) × (get_or p.client_cache i none ≡ some c)
          × (new_http_client net p.timeout (get_or p.proxies i "") p.force_ipv6 ≡ ok c))

  pub record IsValid (p : ProxyPool) : Type 0 where
    pub filled : 0 < length p.proxies
    pub in_range : p.current < length p.proxies
    pub healthy_length : length p.healthy ≡ length p.proxies
    pub counts_length : length p.failure_counts ≡ length p.proxies
    pub cooldown_length : length p.cooldown_until ≡ length p.proxies
    pub cache_length : length p.client_cache ≡ length p.proxies
    pub counted : AllBelow (Counted p) (length p.proxies)
    pub cached : AllBelow (Cached p) (length p.proxies)

pub index_of_lt :
    (url : String) (xs : List String) (i : ℕ) → index_of url xs ≡ some i → i < length xs
unfolding index_of
index_of_lt url [] i e = cc
index_of_lt url (x ∷ xs) i e = elim (Option-cases (index_of url xs)) [
  | inl gone ↦ ground arith
  | inr (j, found) ↦ ground (arith, index_of_lt url xs j found)
]

Counted-success :
    (p : ProxyPool) (i j : ℕ)
    → length p.failure_counts ≡ length p.proxies
    → j < length p.proxies
    → Counted p j
    → Counted (success_at p i) j
unfolding success_at
Counted-success p i j e lt h = elim (ℕ_discrete i j) [
  | yes q ↦ inr (rw (← q) (rw (get_or-set_self p.failure_counts i 0 0 (omega arith)) (omega arith)))
  | no ne ↦
      rw (get_or-set_ne p.failure_counts i j 0 0 ne, get_or-set_ne p.healthy i j true false ne) h
]

module _ (net : Net) where
  Cached-success :
      (p : ProxyPool) (i j : ℕ)
      → length p.client_cache ≡ length p.proxies
      → j < length p.proxies
      → Cached net p j
      → Cached net (success_at p i) j
  unfolding success_at
  Cached-success p i j e lt h = elim (ℕ_discrete i j) [
    | yes q ↦ inl (rw (← q) (get_or-set_self p.client_cache i none none (omega arith)))
    | no ne ↦ rw (get_or-set_ne p.client_cache i j none none ne) h
  ]

  success_at-IsValid : (p : ProxyPool) (i : ℕ) → IsValid net p → IsValid net (success_at p i)
  unfolding success_at
  success_at-IsValid p i v = record {
    filled = v.filled;
    in_range = v.in_range;
    healthy_length = length-set p.healthy i true ∙ v.healthy_length;
    counts_length = length-set p.failure_counts i 0 ∙ v.counts_length;
    cooldown_length = length-set p.cooldown_until i _ ∙ v.cooldown_length;
    cache_length = length-set p.client_cache i none ∙ v.cache_length;
    counted =
        AllBelow-map (Counted p) (Counted (success_at p i)) _
          (λ j lt. Counted-success p i j v.counts_length lt) v.counted;
    cached =
        AllBelow-map (Cached net p) (Cached net (success_at p i)) _
          (λ j lt. Cached-success p i j v.cache_length lt) v.cached;
  }

module _ (now : ℕ) (retry_after : ℤ) (p : ProxyPool) (i j : ℕ) where
  abbrev failed : ProxyPool
  failed = failure_at p now retry_after i

  Counted-failure :
      length p.failure_counts ≡ length p.proxies
      → length p.healthy ≡ length p.proxies
      → j < length p.proxies
      → Counted p j
      → Counted failed j
  unfolding failure_at
  Counted-failure e f lt h = elim (ℕ_discrete i j) [
    | yes q ↦ elim (Bool-cases (leb 3 (next_failures p i))) [
      | inl many ↦ inl (rw (many, ← q) (get_or-set_self p.healthy i false false (omega (arith, q))))
      | inr few ↦ inr (
          rw (← q) (
            rw (get_or-set_self p.failure_counts i (next_failures p i) 0 (omega (arith, q)))
              (ground arith)))
    ]
    | no ne ↦ elim (Bool-cases (leb 3 (next_failures p i))) [
      | inl many ↦
          rw
            (
              many,
              get_or-set_ne p.failure_counts i j (next_failures p i) 0 ne,
              get_or-set_ne p.healthy i j false false ne,
            )
            h
      | inr few ↦ rw (few, get_or-set_ne p.failure_counts i j (next_failures p i) 0 ne) h
    ]
  ]

  Cached-failure :
      (net : Net)
      → length p.client_cache ≡ length p.proxies
      → j < length p.proxies
      → Cached net p j
      → Cached net failed j
  unfolding failure_at
  Cached-failure net e lt h = elim (ℕ_discrete i j) [
    | yes q ↦ inl (rw (← q) (get_or-set_self p.client_cache i none none (omega (arith, q))))
    | no ne ↦ rw (get_or-set_ne p.client_cache i j none none ne) h
  ]

length-if-set :
    (b : Bool) (xs : List Bool) (i : ℕ) → length (if b then set xs i false else xs) ≡ length xs
length-if-set true xs i = length-set xs i false
length-if-set false xs i = refl

module _ (net : Net) (parse_time : String → Option ℤ) where
  failure_at-IsValid :
      (p : ProxyPool) (now : ℕ) (retry_after : ℤ) (i : ℕ)
      → IsValid net p
      → IsValid net (failure_at p now retry_after i)
  unfolding failure_at
  failure_at-IsValid p now ra i v = record {
    filled = v.filled;
    in_range = v.in_range;
    healthy_length = length-if-set (leb 3 (next_failures p i)) p.healthy i ∙ v.healthy_length;
    counts_length = length-set p.failure_counts i _ ∙ v.counts_length;
    cooldown_length = length-set p.cooldown_until i _ ∙ v.cooldown_length;
    cache_length = length-set p.client_cache i none ∙ v.cache_length;
    counted =
        AllBelow-map (Counted p) (Counted (failure_at p now ra i)) _
          (λ j lt. Counted-failure now ra p i j v.counts_length v.healthy_length lt) v.counted;
    cached =
        AllBelow-map (Cached net p) (Cached net (failure_at p now ra i)) _
          (λ j lt. Cached-failure now ra p i j net v.cache_length lt) v.cached;
  }

  -- Marking a success keeps a pool well formed.
  pub mark_success-IsValid :
      (p : ProxyPool) (url : String) → IsValid net p → IsValid net (mark_success p url)
  unfolding mark_success
  mark_success-IsValid p url v = elim (Option-cases (index_of url p.proxies)) [
    | inl gone ↦ rw (gone, mark_success) v
    | inr (i, found) ↦ rw (found, mark_success) (success_at-IsValid net p i v)
  ]

  -- Marking a failure keeps a pool well formed.
  pub mark_failure-IsValid :
      (p : ProxyPool) (now : ℕ) (url : String) (status : ℕ) (network : Bool) (header : String)
      → IsValid net p
      → IsValid net (mark_failure parse_time p now url status network header)
  unfolding mark_failure
  mark_failure-IsValid p now url status network header v =
      elim (Bool-cases (is_business_error status network)) [
        | inl business ↦ rw (business, mark_failure) v
        | inr real ↦ elim (Option-cases (index_of url p.proxies)) [
          | inl gone ↦ rw (real, gone, mark_failure) v
          | inr (i, found) ↦ rw (real, found, mark_failure) (failure_at-IsValid p now _ i v)
        ]
      ]
