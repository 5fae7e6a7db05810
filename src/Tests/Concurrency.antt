-- ===== src/Tests/Concurrency.antt =====
-- Goroutines that react to 429 responses, a dial that is given up, and a server that is shut down.
use opencode_proxy_api.Base.{
  ◌+◌, ◌≤◌, true, false, List, [], ◌∷◌, none, some, ok, ◌≡◌, ◌≢◌, ◌⊎◌, refl, arith, eq_iff,
  to_int32,
}
use opencode_proxy_api.Config.Dialer.Cancel.{Dial, Settled, Goes, dial_settles}
use opencode_proxy_api.Config.Dialer.Cancel
use opencode_proxy_api.Handler.{
  Handler, runs_action, react, on_rate_limited, account, note_failure, note_success,
}
use opencode_proxy_api.Handler.Concurrent.{Shared, add, fire, Reach, here, next, fresh}
use opencode_proxy_api.Handler.Concurrent.Bound.{commands_le}
use opencode_proxy_api.Handler.Concurrent.Race.{commands_race}
use opencode_proxy_api.Handler.Concurrent.Alone.{idle}
use opencode_proxy_api.Handler.Concurrent.Sequence.{account_all-Reach}
use opencode_proxy_api.Handler.Actions.{Reply, account_all, too_many}
use opencode_proxy_api.Server.Shutdown.{
  Stopped, closed, Watcher, waiting, shutting, exited, HttpServer, exit_in_flight,
}
use opencode_proxy_api.Server.Shutdown
use opencode_proxy_api.Tests.{net, cfg, no_date}
use opencode_proxy_api.Tests.Serving.{handler}

command_given : cfg.rate_limit_action ≢ ""
command_given e = absurd (ground (arith, eq_iff "warp-cli" "", e))

runs_at_two : runs_action net cfg 2 ≡ true
unfolding runs_action to_int32
runs_at_two = refl

-- Two responses come, and the second lets the command run.
abbrev after_two : Shared
after_two = record { count = 0; held = 1 ∷ []; arrived = 2; ran = 1 }

reached : Reach net cfg fresh after_two
reached = next (next (next here add) add) (fire [] 2 (1 ∷ []) refl runs_at_two)

commands_le_example : (after_two.ran ≡ 0) ⊎ (after_two.ran + 2 ≤ after_two.arrived + 1)
commands_le_example =
    commands_le net 2 cfg command_given refl (omega arith) (omega arith) reached (omega arith)

commands_race_example : (s : Shared) × Reach net cfg fresh s × (s.arrived ≡ 2 + 5) × (s.ran ≡ 6)
commands_race_example =
    commands_race net 2 cfg command_given refl (omega arith) (omega arith) 5 (omega arith)

abbrev direct_handler : Handler
direct_handler = record handler { proxy_pool = none }

abbrev replies : List Reply
replies =
    record { now = 5; status = 429; retry_after = "" }
    ∷ record { now = 6; status = 503; retry_after = "" }
    ∷ record { now = 7; status = 429; retry_after = "" }
    ∷ record { now = 8; status = 200; retry_after = "" }
    ∷ []

accounted :
    account_all net no_date direct_handler replies
    ≡ ok (record direct_handler { rate_limit_count = 0 }, "warp-cli" ∷ [])
unfolding account_all account note_failure note_success on_rate_limited react runs_action to_int32
accounted = refl

account_all-Reach_example :
    Reach net cfg (idle net 1 4 0) (idle net 0 (4 + too_many replies) (0 + 1))
account_all-Reach_example =
    account_all-Reach net no_date direct_handler replies
      (record direct_handler { rate_limit_count = 0 }, "warp-cli" ∷ []) 4 0 accounted

abbrev connected : Dial
connected = record { conn = some 7; error = none }

-- The context is done before Dial has connected.
abbrev given_up : Cancel.Call
given_up = record {
  dialing = false;
  channel = some connected;
  caller = Cancel.returned (record { conn = none; error = some "context canceled" });
  cleaner = Cancel.receiving;
  closed = [];
}

late : Cancel.Reach connected "context canceled" 2 given_up
late =
    Cancel.next (Cancel.next Cancel.here (Cancel.cancelled_step refl))
      (Cancel.dialed_step refl refl)

dial_settles_example :
    (2 ≤ 3)
    × (Settled connected "context canceled" given_up ⊎ Goes connected "context canceled" given_up)
dial_settles_example = dial_settles connected "context canceled" late

-- A server that stops as soon as it is told to, and takes requests until then.
abbrev server : HttpServer
server = record {
  Stops = λ w n why. (w ≢ waiting) × (why ≡ closed);
  Shuts = λ n e. n ≡ 0;
  Accepts = λ w. w ≡ waiting;
}

exit_in_flight_example :
    Shutdown.Reach server (record { main = exited 0; watcher = shutting; in_flight = 3 })
exit_in_flight_example = exit_in_flight server (λ n. ((λ e. cc (e)), refl)) refl 3
