-- ===== src/Outage/Debounce.antt =====
-- An outage of the WAN path is announced only after 30 seconds of bad observations in a row.
use mathlib.Core.Path.{subst}
use openwrt_starwatch.History.{second}
use openwrt_starwatch.Base.{
  ℕ, ◌+◌, ◌*◌, ◌≤◌, ◌≡◌, ◌≢◌, ◌⊎◌, refl, Bool, true, false, ◌&&◌, List, [], ◌∷◌, ◌++◌,
  if◌then◌else◌, arith, Bool-cases, inl, inr, ap, ◌∙◌, sym, append_assoc, append-nil,
}
use openwrt_starwatch.Base.Effects.{All, All-append}
use openwrt_starwatch.Base.Maps.{lookup, ◌==◌, string_eq, nat_eq}
use openwrt_starwatch.Outage.{
  active, key_eq, Entry, DishReport, Timeline, Wiring, published, is_known, ingest_one, ingest_all,
  ingest_dish, prune_seen_dish, begin_outage, end_outage, observe_dish, observe_path,
  expect_dish_unreachable_until, source_path, new_timeline,
}
use openwrt_starwatch.Outage.Notices.{
  Call, reporting, observing_dish, observing_path, expecting, run,
}

-- An observation of the path: when, and whether the dish was connected and every probe lost.
abbrev pub Observation : Type 0
Observation = ℕ × Bool

abbrev pub path_observations : List Call → List Observation
path_observations [] = []
path_observations (observing_path now connected lost ∷ cs) =
    (now, (connected && lost)) ∷ path_observations cs
path_observations (reporting now rs ∷ cs) = path_observations cs
path_observations (observing_dish now up since ∷ cs) = path_observations cs
path_observations (expecting until ∷ cs) = path_observations cs

-- The observations end in an unbroken row of bad ones that has a first one at `p`.
pub record Streak (p : ℕ) (h : List Observation) : Type 0 where
  pub earlier : List Observation
  pub later : List Observation
  pub split : h ≡ earlier ++ (p, true) ∷ later
  pub bad : All (λ o. o.1 ≡ true) later

abbrev Pending : List Observation → Timeline → Type 0
Pending h t = (t.path_pending ≡ 0) ⊎ Streak t.path_pending h

Streak-new : (p : ℕ) (h : List Observation) → Streak p (h ++ (p, true) ∷ [])
Streak-new p h = record { earlier = h; later = []; split = refl; bad = tt }

Streak-snoc : (p now : ℕ) (h : List Observation) → Streak p h → Streak p (h ++ (now, true) ∷ [])
Streak-snoc p now h s = record {
  earlier = s.earlier;
  later = s.later ++ (now, true) ∷ [];
  split =
      ap (λ l. l ++ (now, true) ∷ []) s.split
      ∙ append_assoc s.earlier ((p, true) ∷ s.later) ((now, true) ∷ []);
  bad = All-append (λ o. o.1 ≡ true) s.later ((now, true) ∷ []) s.bad (refl, tt);
}

-- What an observation leaves of the pending time.
pending-observe_path :
    (w : Wiring) (now : ℕ) (connected lost : Bool) (t : Timeline)
    → (observe_path w now connected lost t).0.path_pending ≡ (
        if connected && lost
        then (if is_known (lookup (active source_path) t.entries)
            then t.path_pending
            else if t.path_pending == 0
            then now
            else t.path_pending)
        else 0)
unfolding observe_path begin_outage end_outage
pending-observe_path w now connected lost t = ground arith

next_pending : Bool → Bool → ℕ → ℕ → ℕ
next_pending bad on q now = if bad then (if on then q else if q == 0 then now else q) else 0

next_pending_lem :
    (bad on : Bool) (q now : ℕ) (h : List Observation)
    → (q ≡ 0) ⊎ Streak q h
    → (next_pending bad on q now ≡ 0) ⊎ Streak (next_pending bad on q now) (h ++ (now, bad) ∷ [])
unfolding next_pending
next_pending_lem false on q now h p = inl refl
next_pending_lem true true q now h (inl zero_time) = inl zero_time
next_pending_lem true true q now h (inr s) = inr (Streak-snoc q now h s)
next_pending_lem true false q now h p = elim (Bool-cases (q == 0)) [
  | inl fresh ↦ rw fresh (inr (Streak-new now h))
  | inr old ↦ rw old (kept p old)
]
  where
    kept : (q ≡ 0) ⊎ Streak q h → (q == 0) ≡ false → (q ≡ 0) ⊎ Streak q (h ++ (now, true) ∷ [])
    kept (inl zero_time) old = inl zero_time
    kept (inr s) old = inr (Streak-snoc q now h s)

Pending-observe_path :
    (w : Wiring) (now : ℕ) (connected lost : Bool) (t : Timeline) (h : List Observation)
    → Pending h t
    → Pending (h ++ (now, (connected && lost)) ∷ []) (observe_path w now connected lost t).0
unfolding next_pending
Pending-observe_path w now connected lost t h p =
    subst (λ q. (q ≡ 0) ⊎ Streak q (h ++ (now, (connected && lost)) ∷ []))
      (sym (pending-observe_path w now connected lost t))
      (next_pending_lem (connected && lost) (is_known (lookup (active source_path) t.entries))
        t.path_pending now h p)

-- Reports and observations of the dish leave the pending time alone.
pending-ingest_all :
    (w : Wiring) (now : ℕ) (rs : List DishReport) (t : Timeline)
    → (ingest_all w now rs t).0.path_pending ≡ t.path_pending
unfolding ingest_all ingest_one
pending-ingest_all w now [] t = refl
pending-ingest_all w now (r ∷ rs) t =
    pending-ingest_all w now rs (ingest_one w now r t).0 ∙ (ground arith)

pending-observe_dish :
    (w : Wiring) (now : ℕ) (up : Bool) (since : ℕ) (t : Timeline)
    → (observe_dish w now up since t).0.path_pending ≡ t.path_pending
unfolding observe_dish begin_outage end_outage
pending-observe_dish w now up since t = ground arith

pending-expect :
    (until : ℕ) (t : Timeline)
    → (expect_dish_unreachable_until until t).path_pending ≡ t.path_pending
unfolding expect_dish_unreachable_until
pending-expect until t = ground arith

Pending-run :
    (w : Wiring) (cs : List Call) (t : Timeline) (h : List Observation)
    → Pending h t
    → Pending (h ++ path_observations cs) (run w cs t).0
unfolding run ingest_dish prune_seen_dish
Pending-run w [] t h p = subst (λ l. Pending l t) (sym (append-nil h)) p
Pending-run w (reporting now rs ∷ cs) t h p = Pending-run w cs (ingest_dish w now rs t).0 h (
    subst (λ q. (q ≡ 0) ⊎ Streak q h) (sym (pending-ingest_all w now rs (prune_seen_dish now t))) p)
Pending-run w (observing_dish now up since ∷ cs) t h p =
    Pending-run w cs (observe_dish w now up since t).0 h
      (subst (λ q. (q ≡ 0) ⊎ Streak q h) (sym (pending-observe_dish w now up since t)) p)
Pending-run w (observing_path now connected lost ∷ cs) t h p =
    subst (λ l. Pending l (run w cs (observe_path w now connected lost t).0).0)
      (append_assoc h ((now, (connected && lost)) ∷ []) (path_observations cs))
      (Pending-run w cs (observe_path w now connected lost t).0
        (h ++ (now, (connected && lost)) ∷ []) (Pending-observe_path w now connected lost t h p))
Pending-run w (expecting until ∷ cs) t h p =
    Pending-run w cs (expect_dish_unreachable_until until t) h
      (subst (λ q. (q ≡ 0) ⊎ Streak q h) (sym (pending-expect until t)) p)

observe_path-started :
    (w : Wiring) (now at : ℕ) (connected lost : Bool) (e : Entry) (t : Timeline)
    → (observe_path w now connected lost t).1 ≡ published "outage_started" at e ∷ []
    → (e.start ≡ t.path_pending)
      × (t.path_pending ≢ 0)
      × (t.path_pending + 30 * second ≤ now)
      × ((connected && lost) ≡ true)
unfolding observe_path begin_outage end_outage
observe_path-started w now at connected lost e t h =
    ground (arith, string_eq.test_iff "outage_ended" "outage_started")

-- On a timeline that any calls have led to, an observation announces a path outage only if it is bad
-- and the observations before it end in an unbroken row of bad ones whose first was made at the
-- announced start, at least 30 seconds ago.
pub path_start_confirmed :
    (w : Wiring) (cs : List Call) (now at : ℕ) (connected lost : Bool) (e : Entry)
    → (observe_path w now connected lost (run w cs new_timeline).0).1
      ≡ published "outage_started" at e ∷ []
    → Streak e.start (path_observations cs)
      × (e.start + 30 * second ≤ now)
      × ((connected && lost) ≡ true)
path_start_confirmed w cs now at connected lost e h =
    let (start, pending, late, bad) =
      observe_path-started w now at connected lost e (run w cs new_timeline).0 h in
    (
      subst (λ p. Streak p (path_observations cs)) (sym start)
          (streak (Pending-run w cs new_timeline [] (inl (unfold new_timeline in refl))) pending),
      omega (arith, start),
      bad,
    )
  where
    streak :
        Pending (path_observations cs) (run w cs new_timeline).0
        → (run w cs new_timeline).0.path_pending ≢ 0
        → Streak (run w cs new_timeline).0.path_pending (path_observations cs)
    streak (inl zero_time) ne = absurd (ne zero_time)
    streak (inr s) ne = s
