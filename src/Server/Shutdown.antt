-- ===== src/Server/Shutdown.antt =====
-- cmd/server/main.go: the end of main, and the goroutine that waits for a signal and shuts the server
-- down. When http.Server's ListenAndServe and Shutdown return is a parameter.
use opencode_proxy_api.Base.{
  ℕ, zero, suc, String, Option, none, some, ◌≡◌, ◌≢◌, ◌⊎◌, inl, inr, refl,
}

-- How ListenAndServe returns: with ErrServerClosed or another error.
pub data Stopped : Type 0 where
  closed : Stopped
  failed : Stopped

-- The goroutine: it waits for a signal, is in Shutdown, or has its return.
pub data Watcher : Type 0 where
  waiting : Watcher
  shutting : Watcher
  returned : Option String → Watcher

-- main: in ListenAndServe, or ended with the exit status.
pub data Main : Type 0 where
  listening : Main
  exited : ℕ → Main

pub record Process : Type 0 where
  pub main : Main
  pub watcher : Watcher
  pub in_flight : ℕ

-- In which states of the goroutine, and with how many requests in flight, ListenAndServe and Shutdown
-- can return, and whether a request can come.
pub record HttpServer : Type 1 where
  pub Stops : Watcher → ℕ → Stopped → Type 0
  pub Shuts : ℕ → Option String → Type 0
  pub Accepts : Watcher → Type 0

-- main after ListenAndServe.
unfoldable pub exit_code : Stopped → ℕ
exit_code closed = 0
exit_code failed = 1

-- The exit status of main, if ListenAndServe has returned.
unfoldable pub exit_status : Option Stopped → Option ℕ
unfolding exit_code
exit_status none = none
exit_status (some why) = some (exit_code why)

abbrev pub started : Process
started = record { main = listening; watcher = waiting; in_flight = 0 }

module _ (http : HttpServer) where
  -- A step of the process; it has none after main's exit.
  pub data Step (p : Process) : Process → Type 0 where
    accepts :
        p.main ≡ listening
        → http.Accepts p.watcher
        → Step p (record p { in_flight = suc p.in_flight })
    answers :
        (n : ℕ) → p.main ≡ listening → p.in_flight ≡ suc n → Step p (record p { in_flight = n })
    signal : p.main ≡ listening → p.watcher ≡ waiting → Step p (record p { watcher = shutting })
    shuts :
        (e : Option String)
        → p.main ≡ listening
        → p.watcher ≡ shutting
        → http.Shuts p.in_flight e
        → Step p (record p { watcher = returned e })
    exits :
        (why : Stopped)
        → p.main ≡ listening
        → http.Stops p.watcher p.in_flight why
        → Step p (record p { main = exited (exit_code why) })

  pub data Reach : Process → Type 0 where
    here : Reach started
    next : {p q : Process} → Reach p → Step p q → Reach q

  requests : (http.Accepts waiting) → (n : ℕ) → Reach (record started { in_flight = n })
  requests accepted zero = here
  requests accepted (suc n) = next (requests accepted n) (accepts refl accepted)

  -- ListenAndServe can return ErrServerClosed as soon as Shutdown is called, whatever is in flight, as
  -- it is documented, and requests come until then. Then, for every n, main can exit with status 0
  -- while n requests are in flight and Shutdown still waits for them.
  pub exit_in_flight :
      ((n : ℕ) → http.Stops shutting n closed)
      → http.Accepts waiting
      → (n : ℕ) → Reach (record { main = exited 0; watcher = shutting; in_flight = n })
  unfolding exit_code
  exit_in_flight stops accepted n =
      next (next (requests accepted n) (signal refl refl)) (exits closed refl (stops n))

  -- What main's exit status says of the signal.
  pub ExitFits : Watcher → Main → Type 0
  ExitFits w listening = Unit
  ExitFits w (exited code) = ((code ≡ 0) × (w ≢ waiting)) ⊎ ((code ≡ 1) × (w ≡ waiting))

  module _ (only_closed : (w : Watcher) (n : ℕ) → http.Stops w n closed → w ≢ waiting)
      (only_failed : (w : Watcher) (n : ℕ) → http.Stops w n failed → w ≡ waiting) where
    exits_fit :
        (w : Watcher) (n : ℕ) (why : Stopped)
        → http.Stops w n why
        → ExitFits w (exited (exit_code why))
    unfolding ExitFits exit_code
    exits_fit w n closed st = inl (refl, only_closed w n st)
    exits_fit w n failed st = inr (refl, only_failed w n st)

    -- ListenAndServe returns ErrServerClosed only after a call of Shutdown, and another error only
    -- before. Then main ends with status 0 only after a signal, with 1 only without one, and with no
    -- other status.
    pub exit_fits : {p : Process} → Reach p → ExitFits p.watcher p.main
    unfolding ExitFits
    exit_fits here = tt
    exit_fits (next r (accepts on a)) = rw on tt
    exit_fits (next r (answers n on a)) = rw on tt
    exit_fits (next r (signal on a)) = rw on tt
    exit_fits (next r (shuts e on a b)) = rw on tt
    exit_fits (next {p} r (exits why on st)) = exits_fit p.watcher p.in_flight why st
