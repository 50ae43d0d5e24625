-- ===== src/Speedtest/Workers.antt =====
-- At any time at most one speed test is under way.
use mathlib.Core.Path.{subst}
use openwrt_starwatch.Base.{
  ℕ, zero, suc, ◌<◌, ◌≡◌, refl, true, false, List, [], ◌∷◌, ◌++◌, Option, none, some, String,
  length, if◌then◌else◌, arith, length-append, Bool-cases, inl, inr,
}
use openwrt_starwatch.Base.Effects.{All, All-append}
use openwrt_starwatch.Base.Maps.{nat_eq}
use openwrt_starwatch.Speedtest.{
  SpeedtestState, RpcError, Floats, Worker, starting, waiting, polling, SpeedtestStatus,
  SpeedtestSnapshot, Manager, Event, answered, waited, cancelled, status_failed, status_got, Effect,
  Wiring, new_manager, is_running, set_state, fail, start_answered, start_waited, poll_failed,
  poll_got, step, start, replace, work,
}

-- A call of `Start`, or an event of a worker.
pub data Call (fl : Floats) : Type 0 where
  calling_start : Call fl
  working : ℕ → Event fl → Call fl

module _ (fl : Floats) where
  unfoldable pub call : Wiring fl → Call fl → Manager fl → Manager fl × List (Effect fl)
  call w calling_start m = ((start fl m).0, [])
  call w (working i e) m = work fl w i e m

  unfoldable pub run : Wiring fl → List (Call fl) → Manager fl → Manager fl × List (Effect fl)
  run w [] m = (m, [])
  run w (c ∷ cs) m = let (m₁, es) = call w c m in let (m₂, fs) = run w cs m₁ in (m₂, es ++ fs)

  -- At most three attempts, and at most two failures in a row before a third ends the poll.
  abbrev pub InBounds : Worker → Type 0
  InBounds (starting attempt) = attempt < 3
  InBounds (waiting attempt) = attempt < 2
  InBounds (polling failures) = failures < 3

  -- A worker goes on only while the state is running, and leaves another state when it returns.
  abbrev Agrees : Option Worker → SpeedtestState → Type 0
  Agrees none st = is_running fl st ≡ false
  Agrees (some v) st = (is_running fl st ≡ true) × InBounds v

  Agrees-fail :
      (message : Option String) (s : SpeedtestSnapshot fl) → Agrees none (fail fl message s).state
  unfolding fail set_state
  Agrees-fail none s = refl
  Agrees-fail (some message) s = refl

  Agrees-start_answered :
      (attempt : ℕ) (answer : Option RpcError) (s : SpeedtestSnapshot fl)
      → attempt < 3
      → is_running fl s.state ≡ true
      → Agrees (start_answered fl attempt answer s).0 (start_answered fl attempt answer s).1.state
  unfolding start_answered fail set_state
  Agrees-start_answered attempt none s h on = (on, omega arith)
  Agrees-start_answered attempt (some e) s h on = ground (arith, on)

  Agrees-poll_failed :
      (failures : ℕ) (e : RpcError) (s : SpeedtestSnapshot fl)
      → failures < 3
      → is_running fl s.state ≡ true
      → Agrees (poll_failed fl failures e s).0 (poll_failed fl failures e s).1.state
  unfolding poll_failed fail set_state
  Agrees-poll_failed failures e s h on = ground (arith, on)

  Agrees-poll_got :
      (w : Wiring fl) (r : Option (SpeedtestStatus fl)) (now : ℕ) (s : SpeedtestSnapshot fl)
      → is_running fl s.state ≡ true
      → Agrees (poll_got fl w r now s).0 (poll_got fl w r now s).1.state
  unfolding poll_got set_state
  Agrees-poll_got w none now s on = (on, omega arith)
  Agrees-poll_got w (some r) now s on = ground (arith, on)

  Agrees-step :
      (w : Wiring fl) (v : Worker) (e : Event fl) (s : SpeedtestSnapshot fl)
      → InBounds v
      → is_running fl s.state ≡ true
      → Agrees (step fl w v e s).0 (step fl w v e s).1.state
  unfolding step start_waited
  Agrees-step w (starting a) (answered answer) s h on = Agrees-start_answered a answer s h on
  Agrees-step w (waiting a) (waited none) s h on = (on, omega arith)
  Agrees-step w (waiting a) (waited (some message)) s h on = Agrees-fail (some message) s
  Agrees-step w (polling f) (cancelled end) s h on = Agrees-fail end s
  Agrees-step w (polling f) (status_failed e) s h on = Agrees-poll_failed f e s h on
  Agrees-step w (polling f) (status_got r now) s h on = Agrees-poll_got w r now s on
  Agrees-step w (starting a) (waited end) s h on = (on, h)
  Agrees-step w (starting a) (cancelled end) s h on = (on, h)
  Agrees-step w (starting a) (status_failed e) s h on = (on, h)
  Agrees-step w (starting a) (status_got r now) s h on = (on, h)
  Agrees-step w (waiting a) (answered answer) s h on = (on, h)
  Agrees-step w (waiting a) (cancelled end) s h on = (on, h)
  Agrees-step w (waiting a) (status_failed e) s h on = (on, h)
  Agrees-step w (waiting a) (status_got r now) s h on = (on, h)
  Agrees-step w (polling f) (answered answer) s h on = (on, h)
  Agrees-step w (polling f) (waited end) s h on = (on, h)

  -- One worker while the state is running, and none otherwise.
  pub record IsConsistent (m : Manager fl) : Type 0 where
    pub one_if_running : length m.workers ≡ (if is_running fl m.snapshot.state then 1 else 0)
    pub in_bounds : All InBounds m.workers

  All-snoc :
      (ws : List Worker) (v : Worker) → All InBounds ws → InBounds v → All InBounds (ws ++ v ∷ [])
  All-snoc ws v h k = All-append InBounds ws (v ∷ []) h (k, tt)

  start-IsConsistent : (m : Manager fl) → IsConsistent m → IsConsistent (start fl m).0
  unfolding start
  start-IsConsistent m c = elim (Bool-cases (is_running fl m.snapshot.state)) [
    | inl on ↦ record {
      one_if_running = ground (arith, on, c.one_if_running);
      in_bounds = subst (All InBounds) (ground (arith, on)) c.in_bounds;
    }
    | inr off ↦ record {
      one_if_running =
          ground (arith, off, c.one_if_running, length-append m.workers (starting 0 ∷ []));
      in_bounds =
          subst (All InBounds) (ground (arith, off))
            (All-snoc m.workers (starting 0) c.in_bounds (omega arith));
    }
  ]

  -- The only worker's place after its step.
  IsConsistent-after :
      (v : Worker) (o : Option Worker) (s : SpeedtestSnapshot fl)
      → Agrees o s.state
      → IsConsistent (record { snapshot = s; workers = replace fl 0 o (v ∷ []) })
  IsConsistent-after v none s off = record { one_if_running = ground (arith, off); in_bounds = tt }
  IsConsistent-after v (some u) s (on, h) = record {
    one_if_running = ground (arith, on);
    in_bounds = (h, tt);
  }

  work-IsConsistent :
      (w : Wiring fl) (i : ℕ) (e : Event fl) (ws : List Worker) (s : SpeedtestSnapshot fl)
      → let m : Manager fl = record { snapshot = s; workers = ws } in
        IsConsistent m → IsConsistent (work fl w i e m).0
  unfolding work
  work-IsConsistent w i e [] s c = c
  work-IsConsistent w zero e (v ∷ []) s c =
      let r = step fl w v e s in
      IsConsistent-after v r.0 r.1
        (Agrees-step w v e s c.in_bounds.0 (ground (arith, c.one_if_running)))
  work-IsConsistent w (suc i) e (v ∷ []) s c = c
  work-IsConsistent w i e (v ∷ u ∷ ws) s c = absurd (ground (arith, c.one_if_running))

  call-IsConsistent :
      (w : Wiring fl) (c : Call fl) (m : Manager fl) → IsConsistent m → IsConsistent (call w c m).0
  unfolding call
  call-IsConsistent w calling_start m h = start-IsConsistent m h
  call-IsConsistent w (working i e) m h = work-IsConsistent w i e m.workers m.snapshot h

  run-IsConsistent :
      (w : Wiring fl) (cs : List (Call fl)) (m : Manager fl)
      → IsConsistent m
      → IsConsistent (run w cs m).0
  unfolding run
  run-IsConsistent w [] m h = h
  run-IsConsistent w (c ∷ cs) m h = run-IsConsistent w cs (call w c m).0 (call-IsConsistent w c m h)

  -- In any interleaving of calls of `Start` with the events of those in progress and of the polls they
  -- begin, from a new manager on: exactly one of them is under way while the state is running, and
  -- none in any other state; and it is at one of at most three attempts, or has seen at most two
  -- unsupported answers in a row.
  pub workers_lem :
      (w : Wiring fl) (cs : List (Call fl)) → IsConsistent (run w cs (new_manager fl)).0
  unfolding new_manager
  workers_lem w cs =
      run-IsConsistent w cs (new_manager fl) (record { one_if_running = refl; in_bounds = tt })
