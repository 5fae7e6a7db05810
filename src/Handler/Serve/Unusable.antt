-- ===== src/Handler/Serve/Unusable.antt =====
-- internal/proxy/handler.go: a session whose own proxy has a URL that no client can be built for.
use opencode_proxy_api.Base.{
  ℕ, String, true, [], Option, some, get_or, ◌≡◌, refl, ◌∙◌, ap, ok, err, ℤ, inl, inr,
}
use opencode_proxy_api.Json.{JsonPackage}
use opencode_proxy_api.Config.Url.{Url}
use opencode_proxy_api.Config.Transport.{Net}
use opencode_proxy_api.Config.Transport.Builds.{Usable, new_http_client-Usable}
use opencode_proxy_api.Session.{Randomness, extract_from_request}
use opencode_proxy_api.Pool.{
  ProxyPool, available, select_index, preferred_index, client_for_session,
}
use opencode_proxy_api.Pool.Invariant.{IsValid}
use opencode_proxy_api.Pool.Affinity.{preferred_index_lt}
use opencode_proxy_api.Pool.Clients.{client_for_session_form, client_for_index_refused}
use opencode_proxy_api.Handler.{Handler}
use opencode_proxy_api.Handler.Auth.{write_json_error}
use opencode_proxy_api.Handler.Upstream.{
  UpstreamRequest, World, Reached, refused, final, upstream_url, session_client, try_once, attempts,
  new_request,
}
use opencode_proxy_api.Handler.Serve.{
  Request, Translate, Admitted, admitted, guards, serve, serve_admitted, request_of, finish,
}

-- The preferred proxy is chosen while it is available.
select_index_own : (p : ProxyPool) (now i : ℕ) → available p now i ≡ true → select_index p now i ≡ i
unfolding select_index
select_index_own p now i up = rw up refl

module _ (net : Net) where
  client_refused :
      (p : ProxyPool) (now : ℕ) (session : String)
      → IsValid net p
      → available p now (preferred_index p session) ≡ true
      → (Usable net (get_or p.proxies (preferred_index p session) "") → ⊥)
      → (e : String) × (client_for_session net (some p) now session ≡ err e)
  client_refused p now session v up unusable =
      let i = preferred_index p session in
      elim (new_http_client-Usable net p.timeout (get_or p.proxies i "") p.force_ipv6) [
        | inl (fit, _) ↦ absurd (unusable fit)
        | inr (_, (e, failed)) ↦ (
          e,
          client_for_session_form net p now session v
              ∙ rw (select_index_own p now i up) (
                  client_for_index_refused net p i e v (preferred_index_lt p session v.filled)
                    failed),
        )
      ]

  module _ (json : JsonPackage) (tr : Translate) (parse_time : String → Option ℤ)
      (world : World) where
    abbrev no_client : Handler → Reached
    no_client h =
        refused h (write_json_error json 500 "proxy configuration error" "server_error") []

    session_client_refused :
        (h : Handler) (p : ProxyPool) (now : ℕ) (session e : String)
        → h.proxy_pool ≡ some p
        → client_for_session net (some p) now session ≡ err e
        → session_client net json parse_time world h h.proxy_pool now session ≡ err e
    unfolding session_client
    session_client_refused h p now session e pool failed =
        ap (λ (o : Option ProxyPool). session_client net json parse_time world h o now session) pool
        ∙ rw (failed, session_client) refl

    attempts_refused :
        (h : Handler) (new_req : ℕ → UpstreamRequest) (session e : String) (u : Url)
        → session_client net json parse_time world h h.proxy_pool (world.now 1) session ≡ err e
        → net.url.parse (new_req 1).url ≡ some u
        → attempts net json parse_time world new_req session 3 0 h [] ≡ ok (no_client h)
    unfolding attempts try_once
    attempts_refused h new_req session e u failed parsed =
        let once : try_once net json parse_time world (new_req 1) session 1 h []
            ≡ ok (final (no_client h)) =
          rw (parsed, try_once) (rw failed refl) in
        rw (once, attempts) refl

    admitted_refused :
        (h : Handler) (r : Request) (random : ℕ → Randomness) (now : ℕ) (a : Admitted)
        → guards json h.cfg r ≡ admitted a
        → attempts net json parse_time world
            (request_of net json tr parse_time world h.cfg r a random
              (extract_from_request json r.header a.body (random 0)))
            (extract_from_request json r.header a.body (random 0)).session
            3
            0
            h
            []
          ≡ ok (no_client h)
        → serve net json tr parse_time world h r random now
          ≡ ok (record {
            handler = h;
            response = some (write_json_error json 500 "proxy configuration error" "server_error");
            sent = [];
            commands = [];
          })
    unfolding serve serve_admitted finish
    admitted_refused h r random now a passed e = rw (passed, serve) (rw (e, finish) refl)

    -- Let the own proxy of a request's session be available in a well-formed pool, with a URL that is
    -- not usable, and let the upstream URL parse. Then the request, once it is admitted, is answered with
    -- a 500, nothing is sent, and the state stays as it is: the proxy is not marked as failed, and no
    -- other one is tried.
    pub serve_unusable :
        (h : Handler) (p : ProxyPool) (r : Request) (random : ℕ → Randomness) (now : ℕ)
        (a : Admitted) (session : String) (u : Url)
        → guards json h.cfg r ≡ admitted a
        → h.proxy_pool ≡ some p
        → IsValid net p
        → (extract_from_request json r.header a.body (random 0)).session ≡ session
        → available p (world.now 1) (preferred_index p session) ≡ true
        → (Usable net (get_or p.proxies (preferred_index p session) "") → ⊥)
        → net.url.parse (upstream_url h.cfg a.ep) ≡ some u
        → serve net json tr parse_time world h r random now
          ≡ ok (record {
            handler = h;
            response = some (write_json_error json 500 "proxy configuration error" "server_error");
            sent = [];
            commands = [];
          })
    unfolding request_of new_request
    serve_unusable h p r random now a session u passed pool v own up unusable parsed =
        let (e, failed) = client_refused p (world.now 1) session v up unusable in
        let refuses = session_client_refused h p (world.now 1) session e pool failed in
        admitted_refused h r random now a passed
          (attempts_refused h _ _ e u (rw own refuses) parsed)
