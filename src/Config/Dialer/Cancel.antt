-- ===== src/Config/Dialer/Cancel.antt =====
-- config/config.go: dialContextFromDialer over a dialer without DialContext. The call of Dial runs in
-- a goroutine that sends its result on a channel of capacity 1; the caller waits for the result or for
-- the context, and in the second case leaves a goroutine that takes the result and closes it.
use opencode_proxy_api.Base.{
  ℕ, zero, suc, ◌+◌, ◌≤◌, String, Bool, true, false, List, [], ◌∷◌, Option, none, some, ◌≡◌, ◌≢◌,
  ◌⊎◌, inl, inr, refl, arith,
}

-- What Dial returns: a connection, by its number, and an error.
pub record Dial : Type 0 where
  pub conn : Option ℕ
  pub error : Option String

pub data Caller : Type 0 where
  waiting : Caller
  returned : Dial → Caller

-- The goroutine that closes a late connection.
pub data Cleaner : Type 0 where
  absent : Cleaner
  receiving : Cleaner
  finished : Cleaner

pub record Call : Type 0 where
  pub dialing : Bool
  pub channel : Option Dial
  pub caller : Caller
  pub cleaner : Cleaner
  pub closed : List ℕ

pub data Event : Type 0 where
  dialed : Event
  received : Event
  cancelled : Event
  closed_late : Event

abbrev pub close : Option ℕ → List ℕ → List ℕ
close none cs = cs
close (some c) cs = c ∷ cs

abbrev pub start : Call
start = record { dialing = true; channel = none; caller = waiting; cleaner = absent; closed = [] }

-- `dial` is what Dial comes to return, and `ctx_err` the context's error.
module _ (dial : Dial) (ctx_err : String) where
  -- The select takes either case where both are ready.
  pub data Step (s : Call) : Event → Call → Type 0 where
    dialed_step :
        s.dialing ≡ true
        → s.channel ≡ none
        → Step s dialed (record s { dialing = false; channel = some dial })
    received_step :
        (r : Dial)
        → s.caller ≡ waiting
        → s.channel ≡ some r
        → Step s received (record s { caller = returned r; channel = none })
    cancelled_step :
        s.caller ≡ waiting
        → Step s cancelled (record s {
          caller = returned (record { conn = none; error = some ctx_err });
          cleaner = receiving;
        })
    closed_late_step :
        (r : Dial)
        → s.cleaner ≡ receiving
        → s.channel ≡ some r
        → Step s closed_late
            (record s { channel = none; cleaner = finished; closed = close r.conn s.closed })

  -- The states that n steps reach.
  pub data Reach : ℕ → Call → Type 0 where
    here : Reach zero start
    next : {n : ℕ} {e : Event} {s t : Call} → Reach n s → Step s e t → Reach (suc n) t

  data Phase : Type 0 where
    idle : Phase
    ready : Phase
    delivered : Phase
    late : Phase
    late_ready : Phase
    swept : Phase

  gave_up : Caller
  gave_up = returned (record { conn = none; error = some ctx_err })

  state : Phase → Call
  unfolding gave_up
  state idle = start
  state ready = record start { dialing = false; channel = some dial }
  state delivered = record start { dialing = false; caller = returned dial }
  state late = record start { caller = gave_up; cleaner = receiving }
  state late_ready = record {
    dialing = false;
    channel = some dial;
    caller = gave_up;
    cleaner = receiving;
    closed = [];
  }
  state swept = record {
    dialing = false;
    channel = none;
    caller = gave_up;
    cleaner = finished;
    closed = close dial.conn [];
  }

  -- The steps that are left at most.
  left : Phase → ℕ
  left idle = 3
  left ready = 2
  left delivered = 0
  left late = 2
  left late_ready = 1
  left swept = 0

  InPhase : ℕ → Call → Type 0
  InPhase n s = (p : Phase) × (s ≡ state p) × (n + left p ≤ 3)

  Step-InPhase :
      (p : Phase) {s t : Call} {e : Event} (n : ℕ)
      → s ≡ state p
      → n + left p ≤ 3
      → Step s e t
      → InPhase (suc n) t
  unfolding InPhase state left gave_up
  Step-InPhase idle n at k (dialed_step a b) = (ready, cc (at), omega (arith, k))
  Step-InPhase idle n at k (received_step r a b) = absurd (cc (at, b))
  Step-InPhase idle n at k (cancelled_step a) = (late, cc (at), omega (arith, k))
  Step-InPhase idle n at k (closed_late_step r a b) = absurd (cc (at, a))
  Step-InPhase ready n at k (dialed_step a b) = absurd (cc (at, a))
  Step-InPhase ready n at k (received_step r a b) = (delivered, cc (at, b), omega (arith, k))
  Step-InPhase ready n at k (cancelled_step a) = (late_ready, cc (at), omega (arith, k))
  Step-InPhase ready n at k (closed_late_step r a b) = absurd (cc (at, a))
  Step-InPhase delivered n at k (dialed_step a b) = absurd (cc (at, a))
  Step-InPhase delivered n at k (received_step r a b) = absurd (cc (at, a))
  Step-InPhase delivered n at k (cancelled_step a) = absurd (cc (at, a))
  Step-InPhase delivered n at k (closed_late_step r a b) = absurd (cc (at, a))
  Step-InPhase late n at k (dialed_step a b) = (late_ready, cc (at), omega (arith, k))
  Step-InPhase late n at k (received_step r a b) = absurd (cc (at, a))
  Step-InPhase late n at k (cancelled_step a) = absurd (cc (at, a))
  Step-InPhase late n at k (closed_late_step r a b) = absurd (cc (at, b))
  Step-InPhase late_ready n at k (dialed_step a b) = absurd (cc (at, a))
  Step-InPhase late_ready n at k (received_step r a b) = absurd (cc (at, a))
  Step-InPhase late_ready n at k (cancelled_step a) = absurd (cc (at, a))
  Step-InPhase late_ready n at k (closed_late_step r a b) = (swept, cc (at, b), omega (arith, k))
  Step-InPhase swept n at k (dialed_step a b) = absurd (cc (at, a))
  Step-InPhase swept n at k (received_step r a b) = absurd (cc (at, a))
  Step-InPhase swept n at k (cancelled_step a) = absurd (cc (at, a))
  Step-InPhase swept n at k (closed_late_step r a b) = absurd (cc (at, a))

  Reach-InPhase : {n : ℕ} {s : Call} → Reach n s → InPhase n s
  unfolding InPhase state left
  Reach-InPhase here = (idle, refl, omega arith)
  Reach-InPhase (next {n} r st) = let (p, at, k) = Reach-InPhase r in Step-InPhase p n at k st

  -- Nothing runs any more, and the caller has what Dial returned, with no connection closed, or the
  -- context's error, with Dial's connection closed if it made one.
  pub Settled : Call → Type 0
  Settled s =
      (s.dialing ≡ false)
      × (s.channel ≡ none)
      × (s.cleaner ≢ receiving)
      × (((s.caller ≡ returned dial) × (s.closed ≡ []))
          ⊎ ((s.caller ≡ returned (record { conn = none; error = some ctx_err }))
              × (s.closed ≡ close dial.conn [])))

  -- A step that does not wait for the context.
  pub Goes : Call → Type 0
  Goes s = (e : Event) × (t : Call) × (e ≢ cancelled) × Step s e t

  phase_moves : (p : Phase) {s : Call} → s ≡ state p → Settled s ⊎ Goes s
  unfolding state Settled Goes gave_up
  phase_moves idle at = inr (dialed, _, (λ e. cc (e)), dialed_step (cc (at)) (cc (at)))
  phase_moves ready at = inr (received, _, (λ e. cc (e)), received_step dial (cc (at)) (cc (at)))
  phase_moves delivered at = inl (cc (at), cc (at), (λ e. cc (at, e)), inl (cc (at), cc (at)))
  phase_moves late at = inr (dialed, _, (λ e. cc (e)), dialed_step (cc (at)) (cc (at)))
  phase_moves late_ready at =
      inr (closed_late, _, (λ e. cc (e)), closed_late_step dial (cc (at)) (cc (at)))
  phase_moves swept at = inl (cc (at), cc (at), (λ e. cc (at, e)), inr (cc (at), cc (at)))

  -- Let Dial return. However it, the context and the goroutines interleave, a call has at most three
  -- steps. In each state that it reaches, either it can go on without the context, or nothing runs any
  -- more and the caller has what Dial returned, with no connection closed, or the context's error, with
  -- Dial's connection closed if it made one.
  pub dial_settles : {n : ℕ} {s : Call} → Reach n s → (n ≤ 3) × (Settled s ⊎ Goes s)
  unfolding InPhase
  dial_settles r = let (p, at, k) = Reach-InPhase r in (omega (arith, k), phase_moves p at)
