-- ===== src/Handler/Trace.antt =====
-- internal/proxy/conn_trace.go: what is recorded of the connection of an upstream request. The
-- callbacks run under a lock, so that they are steps of a state.
use opencode_proxy_api.Base.{
  String, Bool, true, false, List, [], ◌∷◌, ◌++◌, Option, none, some, ◌==◌, if◌then◌else◌,
}
use opencode_proxy_api.Base.Text.{append}

-- connTrace
pub record ConnTrace : Type 0 where
  pub remote_addr : String
  pub network : String
  pub reused : Bool
  pub dns_host : String
  pub dns_addrs : List String

-- net.Addr
pub record Addr : Type 0 where
  pub text : String
  pub network : String

-- The callbacks of clientTrace: the addresses are those of DNSDoneInfo, printed; the address of a
-- connection is `none` where there is none or the connection is nil.
pub data TraceEvent : Type 0 where
  dns_start : String → TraceEvent
  dns_done : List String → TraceEvent
  got_conn : Bool → Option Addr → TraceEvent

abbrev pub no_trace : ConnTrace
no_trace = record { remote_addr = ""; network = ""; reused = false; dns_host = ""; dns_addrs = [] }

unfoldable pub on_event : ConnTrace → TraceEvent → ConnTrace
on_event t (dns_start host) = record t { dns_host = host }
on_event t (dns_done addrs) = record t { dns_addrs = addrs }
on_event t (got_conn reused none) = record t { reused = reused }
on_event t (got_conn reused (some a)) = record t {
  reused = reused;
  remote_addr = a.text;
  network = a.network;
}

unfoldable pub trace_of : ConnTrace → List TraceEvent → ConnTrace
trace_of t [] = t
trace_of t (e ∷ es) = trace_of (on_event t e) es

-- A value in the log.
pub data LogValue : Type 0 where
  text : String → LogValue
  flag : Bool → LogValue

joined_by_comma : List String → String
joined_by_comma [] = ""
joined_by_comma (s ∷ []) = s
joined_by_comma (s ∷ t ∷ ts) = append s (append "," (joined_by_comma (t ∷ ts)))

-- net.SplitHostPort, with net.ParseIP of the host and whether it is an IPv4 address: `none` is an
-- error of the first, `some none` one of the second.
module _ (peer : String → Option (Option Bool)) where
  family_args : ConnTrace → List (String × LogValue)
  family_args t = elim (peer t.remote_addr) [
    | some (some true) ↦ ("remote_family", text "ipv4") ∷ []
    | some (some false) ↦ ("remote_family", text "ipv6") ∷ []
    | some none ↦ []
    | none ↦ if t.network == "" then [] else ("remote_network", text t.network) ∷ []
  ]

  dns_args : List String → List (String × LogValue)
  unfolding joined_by_comma
  dns_args [] = []
  dns_args (a ∷ rest) = ("dns_addrs", text (joined_by_comma (a ∷ rest))) ∷ []

  -- logArgs
  unfoldable pub log_args : ConnTrace → List (String × LogValue)
  unfolding family_args dns_args
  log_args t =
      if t.remote_addr == ""
      then []
      else ("remote_addr", text t.remote_addr)
        ∷ (family_args t
            ++ ((if t.reused then ("conn_reused", flag true) ∷ [] else [])
                ++ ((if t.dns_host == "" then [] else ("dns_host", text t.dns_host) ∷ [])
                    ++ dns_args t.dns_addrs)))
