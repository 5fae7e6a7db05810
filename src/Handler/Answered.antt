-- ===== src/Handler/Answered.antt =====
-- internal/proxy/handler.go: the attempts of a handler without a pool.
use opencode_proxy_api.Base.{
  ℕ, zero, suc, ◌+◌, ◌≤◌, ◌<◌, String, false, [], Option, none, some, leb, ◌≡◌, refl, arith, ok, ℤ,
}
use opencode_proxy_api.Config.Url.{Url}
use opencode_proxy_api.Config.Transport.{Net}
use opencode_proxy_api.Json.{JsonPackage}
use opencode_proxy_api.Pool.{ProxyPool}
use opencode_proxy_api.Handler.{Handler}
use opencode_proxy_api.Handler.Upstream.{
  UpstreamRequest, UpstreamResponse, World, failed, answered, reached, final, again, session_client,
  note_network_failure, after_failure, sent_once, try_once, attempts,
}
use opencode_proxy_api.Handler.Attempts.{tries}

module _ (net : Net) (json : JsonPackage) (parse_time : String → Option ℤ) (world : World)
    (new_req : ℕ → UpstreamRequest) (session : String) (h : Handler) (u : Url)
    (no_pool : h.proxy_pool ≡ none)
    (parsed : (n : ℕ) → net.url.parse (new_req n).url ≡ some u) where
  -- The attempt fails, and the client waits for the next one.
  abbrev pub IsLost : ℕ → Type 0
  IsLost n = (world.send h.upstream (new_req n) n ≡ failed) × (world.cancelled n ≡ false)

  session_direct :
      (pool : Option ProxyPool) (now : ℕ)
      → pool ≡ none
      → session_client net json parse_time world h pool now session ≡ ok (h, h.upstream)
  unfolding session_client
  session_direct none now e = refl
  session_direct (some p) now e = cc

  lost_once :
      (attempt : ℕ)
      → suc attempt < 3
      → IsLost (suc attempt)
      → try_once net json parse_time world
          (new_req (suc attempt))
          session
          (suc attempt)
          h
          (tries new_req attempt)
        ≡ ok (again h (tries new_req (suc attempt)))
  unfolding try_once session_client sent_once note_network_failure after_failure
  lost_once attempt lt lost =
      let few : leb 3 (suc attempt) ≡ false = ground arith in
      rw (parsed (suc attempt), try_once)
        (rw (no_pool, session_client) (rw (lost.0, no_pool, few, lost.1, sent_once) refl))

  answered_once :
      (attempt : ℕ) (resp : UpstreamResponse)
      → world.send h.upstream (new_req (suc attempt)) (suc attempt) ≡ answered resp
      → try_once net json parse_time world
          (new_req (suc attempt))
          session
          (suc attempt)
          h
          (tries new_req attempt)
        ≡ ok (final (reached h resp (tries new_req (suc attempt))))
  unfolding try_once session_client sent_once
  answered_once attempt resp e =
      rw (parsed (suc attempt), try_once)
        (rw (session_direct h.proxy_pool (world.now (suc attempt)) no_pool)
          (rw (e, sent_once) refl))

  answered_from :
      (j rounds attempt : ℕ) (resp : UpstreamResponse)
      → j < rounds
      → attempt + rounds ≡ 3
      → ((n : ℕ) → attempt < n → n ≤ attempt + j → IsLost n)
      → world.send h.upstream (new_req (suc (attempt + j))) (suc (attempt + j)) ≡ answered resp
      → attempts net json parse_time world new_req session rounds attempt h (tries new_req attempt)
        ≡ ok (reached h resp (tries new_req (suc (attempt + j))))
  unfolding attempts
  answered_from j zero attempt resp lt sum lost e = absurd (omega arith)
  answered_from zero (suc rounds) attempt resp lt sum lost e =
      let here : attempt + 0 ≡ attempt = omega arith in
      rw (here, attempts) (rw (answered_once attempt resp (rw here at e), attempts))
  answered_from (suc j) (suc rounds) attempt resp lt sum lost e =
      let step = lost_once attempt (omega arith) (lost (suc attempt) (omega arith) (omega arith)) in
      let shift : attempt + suc j ≡ suc attempt + j = omega arith in
      rw (shift, attempts)
        (rw (step, attempts)
          (answered_from j rounds (suc attempt) resp (omega arith) (omega arith)
            (λ n a b. lost n (omega arith) (omega arith)) (rw shift at e)))

  -- Without a pool, the first attempt that is answered ends the loop: its answer is the result, if
  -- it is one of the first three, every attempt before it failed, and the client waited.
  pub attempts-answered :
      (k : ℕ) (resp : UpstreamResponse)
      → k < 3
      → ((n : ℕ) → 0 < n → n ≤ k → IsLost n)
      → world.send h.upstream (new_req (suc k)) (suc k) ≡ answered resp
      → attempts net json parse_time world new_req session 3 0 h []
        ≡ ok (reached h resp (tries new_req (suc k)))
  attempts-answered k resp lt lost e =
      let none_yet : 0 + k ≡ k = omega arith in
      rw none_yet at
        (answered_from k 3 0 resp lt refl (λ n a b. lost n a (omega arith)) (rw (none_yet) e))
