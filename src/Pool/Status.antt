-- ===== src/Pool/Status.antt =====
-- config/proxy_pool.go: HealthStatus. A map is a list, of which the last entry with a key counts.
use native.Mathlib.Decide.{ℕ_discrete}
use opencode_proxy_api.Base.{
  ℕ, String, Bool, false, List, [], ◌∷◌, Option, none, some, ◌==◌, if◌then◌else◌, ◌≡◌, refl, ap,
  ◌∙◌, sym, Result, ok, panic, ◌>>=◌, Bool-cases, inl, inr, length, arith, get_or, ◌<◌, ◌≢◌, ◌⊎◌,
  eq_iff, zero, suc,
}
use opencode_proxy_api.Config.Url.{UrlPackage, redact_proxy_url}
use opencode_proxy_api.Config.Transport.{Net}
use opencode_proxy_api.Pool.{ProxyPool}
use opencode_proxy_api.Pool.Invariant.{IsValid}

-- `m[key]`
unfoldable pub status_at : String → List (String × Bool) → Option Bool
status_at key [] = none
status_at key ((k, b) ∷ rest) =
    let later = status_at key rest in
    elim later [ some c ↦ some c | none ↦ if k == key then some b else none ]

ne_of_test : (s t : String) → (s == t) ≡ false → s ≢ t
ne_of_test s t h e = cc (sym h ∙ (eq_iff s t).1 e)

module _ (pkg : UrlPackage) where
  -- The loop, over the proxies that are left and their flags; a flag that is missing is a panic.
  unfoldable pub flags_of : List String → List Bool → Result (List (String × Bool))
  flags_of [] flags = ok []
  flags_of (p ∷ ps) [] = panic
  flags_of (p ∷ ps) (b ∷ bs) = do rest ← flags_of ps bs; ok ((redact_proxy_url pkg p, b) ∷ rest)

  -- HealthStatus; `none` is a nil map.
  unfoldable pub health_status : Option ProxyPool → Result (Option (List (String × Bool)))
  health_status none = ok none
  health_status (some p) = do status ← flags_of p.proxies p.healthy; ok (some status)

  abbrev printed : List String → ℕ → String
  printed ps i = redact_proxy_url pkg (get_or ps i "")

  entries : List String → List Bool → List (String × Bool)
  entries [] flags = []
  entries (p ∷ ps) [] = []
  entries (p ∷ ps) (b ∷ bs) = (redact_proxy_url pkg p, b) ∷ entries ps bs

  flags_of-entries :
      (ps : List String) (bs : List Bool)
      → length bs ≡ length ps
      → flags_of ps bs ≡ ok (entries ps bs)
  unfolding flags_of entries
  flags_of-entries [] bs e = refl
  flags_of-entries (p ∷ ps) [] e = absurd (omega (arith, e))
  flags_of-entries (p ∷ ps) (b ∷ bs) e = rw (flags_of-entries ps bs (omega (arith, e))) refl

  -- No proxy is printed as the key, and it has no entry.
  abbrev pub Absent : String → List String → Option Bool → Type 0
  Absent key ps o = (o ≡ none) × ((k : ℕ) → k < length ps → printed ps k ≢ key)

  -- The entry of the key is the flag of the last proxy that is printed as it.
  abbrev pub OfLast : String → List String → List Bool → Option Bool → Type 0
  OfLast key ps bs o =
      (j : ℕ) × (j < length ps)
      × (printed ps j ≡ key)
      × (o ≡ some (get_or bs j false))
      × ((k : ℕ) → j < k → k < length ps → printed ps k ≢ key)

  -- What holds of the proxies behind the first holds of them at their indices in the whole list.
  others_from :
      (key p : String) (ps : List String) (j : ℕ)
      → ((k : ℕ) → j < suc k → k < length ps → printed ps k ≢ key)
      → (k : ℕ) → j < k
      → k < suc (length ps)
      → printed (p ∷ ps) k ≢ key
  others_from key p ps j h zero lt_k le_k = absurd (omega (arith, lt_k))
  others_from key p ps j h (suc k) lt_k le_k = h k lt_k (omega (arith, le_k))

  head :
      (key p : String) (ps : List String) (k : ℕ)
      → k ≡ 0
      → (redact_proxy_url pkg p == key) ≡ false
      → printed (p ∷ ps) k ≢ key
  head key p ps k e other same =
      ne_of_test (redact_proxy_url pkg p) key other (ap (printed (p ∷ ps)) (sym e) ∙ same)

  status_at-entries :
      (key : String) (ps : List String) (bs : List Bool)
      → length bs ≡ length ps
      → Absent key ps (status_at key (entries ps bs))
        ⊎ OfLast key ps bs (status_at key (entries ps bs))
  unfolding status_at entries
  status_at-entries key [] bs e = inl (refl, λ k lt. elim lt [ ])
  status_at-entries key (p ∷ ps) [] e = absurd (omega (arith, e))
  status_at-entries key (p ∷ ps) (b ∷ bs) e =
      elim (status_at-entries key ps bs (omega (arith, e))) [
        | inr (j, lt, same, flag, last) ↦ inr (
          suc j,
          omega (arith, lt),
          same,
          rw flag refl,
          others_from key p ps (suc j) (λ k after lt_k. last k (omega (arith, after)) lt_k),
        )
        | inl (gone, none_prints) ↦ elim (Bool-cases (redact_proxy_url pkg p == key)) [
          | inl same ↦ inr (
            0,
            omega arith,
            (eq_iff (redact_proxy_url pkg p) key).0 same,
            rw (gone, same) refl,
            others_from key p ps 0 (λ k after lt_k. none_prints k lt_k),
          )
          | inr other ↦ inl (
            rw (gone, other) refl,
            λ k lt_k. elim (ℕ_discrete k 0) [
              | yes first ↦ λ e. absurd (head key p ps k first other e)
              | no ne ↦
                  others_from key p ps 0 (λ i after lt_i. none_prints i lt_i) k (omega (arith, ne))
                    lt_k
            ],
          )
        ]
      ]

-- HealthStatus of a well-formed pool never panics, and has an entry for a text exactly where a proxy is
-- printed as it, redacted; the entry is the flag of the last such proxy.
pub health_status_lem :
    (net : Net) (p : ProxyPool) (key : String)
    → IsValid net p
    → (m : List (String × Bool)) × (health_status net.url (some p) ≡ ok (some m))
      × (Absent net.url key p.proxies (status_at key m)
          ⊎ OfLast net.url key p.proxies p.healthy (status_at key m))
unfolding health_status
health_status_lem net p key v = (
  entries net.url p.proxies p.healthy,
  rw (flags_of-entries net.url p.proxies p.healthy v.healthy_length) refl,
  status_at-entries net.url key p.proxies p.healthy v.healthy_length,
)
