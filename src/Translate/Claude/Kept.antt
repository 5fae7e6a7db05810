-- ===== src/Translate/Claude/Kept.antt =====
-- internal/translate/claude_request.go: what of the messages goes upstream.
use opencode_proxy_api.Base.{
  ℕ, suc, ◌≤◌, ◌<◌, length, length-append, String, false, List, [], ◌∷◌, some, ◌≡◌, refl, sym,
  arith, Bool-cases, Option-cases, ◌⊎◌, inl, inr,
}
use opencode_proxy_api.Json.{Json, arr, JsonPackage}
use opencode_proxy_api.Translate.Claude.{
  RawMap, RawPackage, array_node, lookup, unmarshal_string, unmarshal_maps,
}
use opencode_proxy_api.Translate.Claude.Messages.{Blocks, messages_for, slice}
use opencode_proxy_api.Translate.Claude.Request.{
  rewrite_round, rewrite_all, changed_messages, new_messages, rewrite_messages, messages_empty,
  ships_nothing,
}

pub List-cases {ℓ} :
    {A : Type ℓ} (xs : List A) → (xs ≡ []) ⊎ ((x : A) × (ys : List A) × (xs ≡ x ∷ ys))
List-cases [] = inl refl
List-cases (x ∷ xs) = inr (x, xs, refl)

module _ (pkg : RawPackage) (json : JsonPackage) where
  -- Each round puts at least one message in place of one.
  messages_for-length :
      (role : String) (msg : RawMap) (c : Blocks) → 0 < length (messages_for pkg json role msg c)
  unfolding messages_for
  messages_for-length role msg c = elim (List-cases c.results) [
    | inr (r, rs, some_results) ↦ rw some_results (omega arith)
    | inl no_results ↦ elim (List-cases c.calls) [
      | inr (t, ts, some_calls) ↦ rw (no_results, some_calls) (omega arith)
      | inl no_calls ↦ rw (no_results, no_calls) (omega arith)
    ]
  ]

  rewrite_round-length : (now : ℕ) (msg : RawMap) → 0 < length (rewrite_round pkg json now msg).0
  unfolding rewrite_round
  rewrite_round-length now msg = elim (Option-cases (unmarshal_string pkg (lookup "content" msg))) [
    | inr (content, text) ↦ rw (text, rewrite_round) (omega arith)
    | inl no_text ↦ elim (Option-cases (unmarshal_maps pkg (lookup "content" msg))) [
      | inl unknown ↦ rw (no_text, unknown, rewrite_round) (omega arith)
      | inr (blocks, some_blocks) ↦
          rw (no_text, some_blocks, rewrite_round) (messages_for-length _ _ _)
    ]
  ]

  rewrite_all-length :
      (clock : ℕ → ℕ) (i : ℕ) (ms : List RawMap)
      → length ms ≤ length (rewrite_all pkg json clock i ms).0
  unfolding rewrite_all
  rewrite_all-length clock i [] = omega arith
  rewrite_all-length clock i (m ∷ ms) = omega (
    arith,
    rewrite_round-length (clock i) m,
    rewrite_all-length clock (suc i) ms,
    length-append (rewrite_round pkg json (clock i) m).0 (rewrite_all pkg json clock (suc i) ms).0,
  )

  -- No message is dropped.
  changed_messages-length :
      (clock : ℕ → ℕ) (ms : List RawMap) (out : List Json)
      → changed_messages pkg json clock ms ≡ some out
      → (length ms ≤ length out) × (0 < length out)
  unfolding changed_messages
  changed_messages-length clock [] out e = (cc (e), cc (e))
  changed_messages-length clock (m ∷ ms) out e =
      elim (Bool-cases (rewrite_all pkg json clock 0 (m ∷ ms)).1) [
        | inr same ↦ cc (rw (same, changed_messages) at e)
        | inl changed ↦
            let form : (rewrite_all pkg json clock 0 (m ∷ ms)).0 ≡ out =
              cc (rw (changed, changed_messages) at e) in
            let kept = rewrite_all-length clock 0 (m ∷ ms) in
            rw (sym form) (kept, omega (arith, kept))
      ]

  new_messages-length :
      (clock : ℕ → ℕ) (t : String) (out : List Json)
      → new_messages pkg json clock t ≡ some out
      → 0 < length out
  unfolding new_messages
  new_messages-length clock t out e = elim (Option-cases (unmarshal_maps pkg (some t))) [
    | inl unknown ↦ ground (arith, rw (unknown, new_messages) at e)
    | inr (ms, some_maps) ↦
        (changed_messages-length clock ms out (rw (some_maps, new_messages) at e)).1
  ]

  messages_empty-array :
      (text t : String) (ts : List String)
      → pkg.node text ≡ some (array_node (t ∷ ts))
      → messages_empty pkg json text ≡ false
  unfolding messages_empty
  messages_empty-array text t ts e = rw (e, messages_empty) refl

  no_room : 0 < length {A = Json} [] → ⊥
  no_room h = omega (arith, h)

  -- Where the JSON of a list that is not empty is read as one, the request that goes upstream never has
  -- its messages emptied: the check for that never fires.
  pub ships_nothing-false :
      ((x : Json) (xs : List Json)
        → (t : String) × (ts : List String) × (pkg.node (json.encode (arr (slice (x ∷ xs))))
            ≡ some (array_node (t ∷ ts))))
      → (clock : ℕ → ℕ) (r : RawMap) → ships_nothing pkg json clock r ≡ false
  unfolding ships_nothing rewrite_messages
  ships_nothing-false reads clock r = elim (Option-cases (lookup "messages" r)) [
    | inl missing ↦ rw (missing, ships_nothing) refl
    | inr (t, there) ↦ elim (Option-cases (new_messages pkg json clock t)) [
      | inl same ↦ rw (there, same, ships_nothing) refl
      | inr (out, changed) ↦ elim (List-cases out) [
        | inl empty ↦ absurd (no_room (rw empty at (new_messages-length clock t out changed)))
        | inr (x, xs, filled) ↦
            let (u, us, e) = reads x xs in
            rw (there, changed, filled, ships_nothing)
              (messages_empty-array (json.encode (arr (slice (x ∷ xs)))) u us e)
      ]
    ]
  ]
