-- ===== src/Speedtest/Latest.antt =====
-- The result shown is the last one stored.
use openwrt_starwatch.Base.{
  ℕ, ◌≡◌, refl, ap, true, List, [], ◌∷◌, ◌++◌, Option, none, some, get_elem?, arith, Option-cases,
  inl, inr,
}
use openwrt_starwatch.Base.Maps.{nat_eq}
use openwrt_starwatch.Speedtest.{
  Floats, Worker, Speedtest, SpeedtestSnapshot, Manager, Event, Effect, added, published, Wiring,
  set_state, fail, start_answered, start_waited, poll_failed, poll_got, step, start, work,
  new_manager,
}
use openwrt_starwatch.Speedtest.Workers.{Call, calling_start, working, call, run}

module _ (fl : Floats) where
  abbrev pub stored_results : List (Effect fl) → List (Speedtest fl)
  stored_results [] = []
  stored_results (added r ∷ es) = r ∷ stored_results es
  stored_results (published r ∷ es) = stored_results es

  abbrev pub published_results : List (Effect fl) → List (Speedtest fl)
  published_results [] = []
  published_results (added r ∷ es) = published_results es
  published_results (published r ∷ es) = r ∷ published_results es

  abbrev pub last_or : Option (Speedtest fl) → List (Speedtest fl) → Option (Speedtest fl)
  last_or o [] = o
  last_or o (r ∷ rs) = last_or (some r) rs

  stored_results-append :
      (es fs : List (Effect fl))
      → stored_results (es ++ fs) ≡ stored_results es ++ stored_results fs
  stored_results-append [] fs = refl
  stored_results-append (added r ∷ es) fs = ap (λ l. r ∷ l) (stored_results-append es fs)
  stored_results-append (published r ∷ es) fs = stored_results-append es fs

  published_results-append :
      (es fs : List (Effect fl))
      → published_results (es ++ fs) ≡ published_results es ++ published_results fs
  published_results-append [] fs = refl
  published_results-append (added r ∷ es) fs = published_results-append es fs
  published_results-append (published r ∷ es) fs = ap (λ l. r ∷ l) (published_results-append es fs)

  last_or-append :
      (o : Option (Speedtest fl)) (rs qs : List (Speedtest fl))
      → last_or o (rs ++ qs) ≡ last_or (last_or o rs) qs
  last_or-append o [] qs = refl
  last_or-append o (r ∷ rs) qs = last_or-append (some r) rs qs

  module _ (w : Wiring fl) (store : w.has_store ≡ true) (live : w.has_live ≡ true) where
    -- An operation's effects on the results, by the one shown before and after it.
    abbrev Tracks : Option (Speedtest fl) → Option (Speedtest fl) → List (Effect fl) → Type 0
    Tracks before after es =
        (after ≡ last_or before (stored_results es)) × (published_results es ≡ stored_results es)

    step-Tracks :
        (v : Worker) (e : Event fl) (s : SpeedtestSnapshot fl)
        → Tracks s.latest (step fl w v e s).1.latest (step fl w v e s).2
    unfolding step start_answered start_waited poll_failed poll_got fail set_state
    step-Tracks v e s = ground (arith, store, live)

    work-Tracks :
        (i : ℕ) (e : Event fl) (m : Manager fl)
        → Tracks m.snapshot.latest (work fl w i e m).0.snapshot.latest (work fl w i e m).1
    unfolding work
    work-Tracks i e m = elim (Option-cases (get_elem? m.workers i)) [
      | inl missing ↦ ground (arith, missing)
      | inr (v, present) ↦ ground (arith, present, step-Tracks v e m.snapshot)
    ]

    call-Tracks :
        (c : Call fl) (m : Manager fl)
        → Tracks m.snapshot.latest (call fl w c m).0.snapshot.latest (call fl w c m).1
    unfolding call start
    call-Tracks calling_start m = ground arith
    call-Tracks (working i e) m = work-Tracks i e m

  run-Tracks :
      (w : Wiring fl) (store : w.has_store ≡ true) (live : w.has_live ≡ true) (cs : List (Call fl))
      (m : Manager fl)
      → Tracks w store live m.snapshot.latest (run fl w cs m).0.snapshot.latest (run fl w cs m).1
  unfolding run
  run-Tracks w store live [] m = (refl, refl)
  run-Tracks w store live (c ∷ cs) m = ground (
    arith,
    call-Tracks w store live c m,
    run-Tracks w store live cs (call fl w c m).0,
    stored_results-append (call fl w c m).1 (run fl w cs (call fl w c m).0).1,
    published_results-append (call fl w c m).1 (run fl w cs (call fl w c m).0).1,
    last_or-append m.snapshot.latest (stored_results (call fl w c m).1)
        (stored_results (run fl w cs (call fl w c m).0).1),
  )

  -- Over any interleaving of calls and events from a new manager on, with a store and a bus, the
  -- results published are those stored, in the same order, and the result that the snapshot shows is
  -- the last of them, whatever became of later tests: a test that fails or is not supported, and one
  -- that has just begun, leave it.
  pub latest_lem :
      (w : Wiring fl) (cs : List (Call fl))
      → w.has_store ≡ true
      → w.has_live ≡ true
      → let r = run fl w cs (new_manager fl) in
        (r.0.snapshot.latest ≡ last_or none (stored_results r.1))
        × (published_results r.1 ≡ stored_results r.1)
  unfolding new_manager
  latest_lem w cs store live = run-Tracks w store live cs (new_manager fl)
