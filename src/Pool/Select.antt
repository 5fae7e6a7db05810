-- ===== src/Pool/Select.antt =====
-- Which proxy ClientForSession settles on: the first available one, from the session's own on.
use native.Mathlib.Nat.{mod-lt, mod-eq_of_lt, add-mod_right}
use native.Mathlib.Decide.{dec_lt}
use opencode_proxy_api.Base.{
  ℕ, zero, suc, ◌+◌, ◌-◌, ◌%◌, ◌<◌, true, false, none, some, length, ◌≡◌, refl, sym, ap, leb,
  first_hit, arith, AllBelow, AllBelow-at, inl, inr, if◌then◌else◌,
}
use opencode_proxy_api.Pool.{ProxyPool, available, fallback, select_index}

module _ (p : ProxyPool) (now preferred : ℕ) where
  -- The proxy that is `k` places after the preferred one, in the pool's cyclic order.
  abbrev pub place : ℕ → ℕ
  place k = (preferred + k) % length p.proxies

  abbrev pub IsDown : ℕ → Type 0
  IsDown k = available p now (place k) ≡ false

  fallback_skips :
      (rounds i : ℕ)
      → available p now (place i) ≡ false
      → fallback p now preferred (suc rounds) i ≡ fallback p now preferred rounds (i + 1)
  unfolding fallback
  fallback_skips rounds i h = rw h

  fallback_hits :
      (rounds i : ℕ)
      → available p now (place i) ≡ true
      → fallback p now preferred (suc rounds) i ≡ some (place i)
  unfolding fallback
  fallback_hits rounds i h = rw h

  -- The loop stops at the first available place among those that it has left.
  fallback_first :
      (d rounds i k : ℕ)
      → i + d ≡ k
      → d < rounds
      → available p now (place k) ≡ true
      → AllBelow IsDown k
      → fallback p now preferred rounds i ≡ some (place k)
  fallback_first d zero i k e h up down = elim h [ ]
  fallback_first zero (suc rounds) i k e h up down =
      let e' : i ≡ k = omega arith in rw e' (fallback_hits rounds k up)
  fallback_first (suc d) (suc rounds) i k e h up down =
      rw (fallback_skips rounds i (AllBelow-at IsDown k i down (omega arith)))
        (fallback_first d rounds (i + 1) k (omega arith) (omega arith) up down)

  fallback_none :
      (rounds i n : ℕ)
      → i + rounds ≡ n
      → AllBelow IsDown n
      → fallback p now preferred rounds i ≡ none
  unfolding fallback
  fallback_none zero i n e down = refl
  fallback_none (suc rounds) i n e down =
      rw (AllBelow-at IsDown n i down (omega arith))
        (fallback_none rounds (i + 1) n (omega arith) down)

  place_zero : preferred < length p.proxies → place 0 ≡ preferred
  place_zero h = let e : preferred + 0 ≡ preferred = omega arith in rw e (mod-eq_of_lt h)

  own_down :
      (n : ℕ)
      → preferred < length p.proxies
      → AllBelow IsDown n
      → 0 < n
      → available p now preferred ≡ false
  own_down n b down h = rw (place_zero b) at (AllBelow-at IsDown n 0 down h)

  -- Every index is some place.
  offset : ℕ → ℕ
  offset i = if leb preferred i then i - preferred else i + length p.proxies - preferred

  offset_lt :
      (i : ℕ) → preferred < length p.proxies → i < length p.proxies → offset i < length p.proxies
  unfolding offset
  offset_lt i b h = ground arith

  place-offset :
      (i : ℕ) → preferred < length p.proxies → i < length p.proxies → place (offset i) ≡ i
  unfolding offset
  place-offset i b h = elim (dec_lt i preferred) [
    | yes before ↦
        let e : preferred + offset i ≡ i + length p.proxies = ground arith in
        rw (e, add-mod_right) (mod-eq_of_lt h)
    | no after ↦ let e : preferred + offset i ≡ i = ground arith in rw e (mod-eq_of_lt h)
  ]

  -- The chosen proxy is the first available one in cyclic order from the preferred index on.
  pub select_index_first :
      (k : ℕ)
      → preferred < length p.proxies
      → k < length p.proxies
      → available p now (place k) ≡ true
      → AllBelow IsDown k
      → select_index p now preferred ≡ place k
  unfolding select_index
  select_index_first zero b h up down =
      let own : available p now preferred ≡ true = rw (place_zero b) at up in
      rw own (sym (place_zero b))
  select_index_first (suc k) b h up down = rw (
    own_down (suc k) b down (omega arith),
    fallback_first (suc k) (length p.proxies) 0 (suc k) (omega arith) h up down,
  )

  -- With no proxy available, the preferred one is used all the same.
  select_index_all_down :
      preferred < length p.proxies
      → AllBelow IsDown (length p.proxies)
      → select_index p now preferred ≡ preferred
  unfolding select_index
  select_index_all_down b down = rw (
    own_down (length p.proxies) b down (omega arith),
    fallback_none (length p.proxies) 0 (length p.proxies) (omega arith) down,
  )

  -- If any proxy is available, the chosen one is.
  select_index-available :
      (i : ℕ)
      → preferred < length p.proxies
      → i < length p.proxies
      → available p now i ≡ true
      → available p now (select_index p now preferred) ≡ true
  select_index-available i b h up =
      elim (first_hit (λ k. available p now (place k)) (length p.proxies)) [
        | inl down ↦
            let own = AllBelow-at IsDown (length p.proxies) (offset i) down (offset_lt i b h) in
            cc (own, up, ap (available p now) (place-offset i b h))
        | inr (k, lt, hit, before) ↦ rw (select_index_first k b lt hit before) hit
      ]

  -- The choice is an index of the pool.
  pub select_index_lt :
      preferred < length p.proxies → select_index p now preferred < length p.proxies
  select_index_lt b = elim (first_hit (λ k. available p now (place k)) (length p.proxies)) [
    | inl down ↦ rw (select_index_all_down b down) b
    | inr (k, lt, hit, before) ↦ rw (select_index_first k b lt hit before) (mod-lt _ (omega arith))
  ]
