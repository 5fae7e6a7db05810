-- ===== src/Handler/Headers.antt =====
-- internal/proxy/respond.go: which headers of the upstream's response reach the client.
use opencode_proxy_api.Base.{
  String, true, false, List, [], ◌∷◌, ◌++◌, map, ◌==◌, if◌then◌else◌, ◌≡◌, refl, ap, ◌∙◌,
  Bool-cases, inl, inr, eq_iff,
}
use opencode_proxy_api.Handler.Upstream.{allowed_header, forward_headers}

-- The values of a header, in their order.
abbrev pub values : String → List (String × String) → List String
values key [] = []
values key ((k, v) ∷ rest) = if k == key then v ∷ values key rest else values key rest

-- Those in a response.
abbrev pub all_values : String → List (String × List String) → List String
all_values key [] = []
all_values key ((k, vs) ∷ rest) =
    if k == key then vs ++ all_values key rest else all_values key rest

values-same :
    (key k : String) (vs : List String) (rest : List (String × String))
    → (k == key) ≡ true
    → values key (map (λ v. (k, v)) vs ++ rest) ≡ vs ++ values key rest
values-same key k [] rest h = refl
values-same key k (v ∷ vs) rest h = rw h (ap (λ xs. v ∷ xs) (values-same key k vs rest h))

values-other :
    (key k : String) (vs : List String) (rest : List (String × String))
    → (k == key) ≡ false
    → values key (map (λ v. (k, v)) vs ++ rest) ≡ values key rest
values-other key k [] rest h = refl
values-other key k (v ∷ vs) rest h = rw h (values-other key k vs rest h)

allowed_same : (key k : String) → (k == key) ≡ true → allowed_header k ≡ allowed_header key
allowed_same key k h = ap allowed_header ((eq_iff k key).0 h)

-- A header reaches the client exactly if it is one of the allowed ones, and then with all its
-- values, in their order; of any other header nothing does.
forward_headers-values :
    (key : String) (headers : List (String × List String))
    → values key (forward_headers headers)
      ≡ (if allowed_header key then all_values key headers else [])
unfolding forward_headers
forward_headers-values key [] = elim (Bool-cases (allowed_header key)) [
  | inl yes_allowed ↦ rw yes_allowed
  | inr not_allowed ↦ rw not_allowed
]
forward_headers-values key ((k, vs) ∷ rest) = elim (Bool-cases (k == key)) [
  | inl same ↦ elim (Bool-cases (allowed_header key)) [
    | inl passes ↦
        rw (allowed_same key k same ∙ passes, passes, same)
          (values-same key k vs (forward_headers rest) same
            ∙ ap (λ xs. vs ++ xs) (rw passes at (forward_headers-values key rest)))
    | inr stays ↦
        rw (allowed_same key k same ∙ stays, stays) (rw stays at (forward_headers-values key rest))
  ]
  | inr other ↦ elim (Bool-cases (allowed_header k)) [
    | inl passes ↦
        rw (passes, other)
          (values-other key k vs (forward_headers rest) other ∙ forward_headers-values key rest)
    | inr stays ↦ rw (stays, other) (forward_headers-values key rest)
  ]
]
