-- ===== src/Outage/Notices.antt =====
-- The notices of the sources that are observed: starts and ends alternate.
use mathlib.Core.Path.{subst}
use openwrt_starwatch.History.{second}
use openwrt_starwatch.Base.{
  ℕ, ◌+◌, ◌*◌, ◌≡◌, refl, Bool, true, false, ◌&&◌, ◌||◌, List, [], ◌∷◌, ◌++◌, Option, none, some,
  String, ltb, if◌then◌else◌, arith, Bool-cases, Option-cases, inl, inr, ap, ◌∙◌, sym,
}
use openwrt_starwatch.Base.Maps.{
  lookup, erase, ◌==◌, lookup-insert, lookup-erase, string_eq, nat_eq,
}
use openwrt_starwatch.Outage.{
  active, key_eq, Entry, DishReport, Timeline, Wiring, Effect, saved, published, incoming,
  entry_key, is_known, ingest_one, ingest_all, ingest_dish, prune_seen_dish, begin_outage,
  end_outage, ended_entry, observe_dish, observe_path, expect_dish_unreachable_until, source_dish,
  source_unreachable, source_path, open_entry, new_timeline,
}

-- Every call that changes a timeline, with its reading of the clock.
pub data Call : Type 0 where
  reporting : ℕ → List DishReport → Call
  observing_dish : ℕ → Bool → ℕ → Call
  observing_path : ℕ → Bool → Bool → Call
  expecting : ℕ → Call

abbrev pub call : Wiring → Call → Timeline → Timeline × List Effect
call w (reporting now rs) t = ingest_dish w now rs t
call w (observing_dish now reachable since) t = observe_dish w now reachable since t
call w (observing_path now connected lost) t = observe_path w now connected lost t
call w (expecting until) t = (expect_dish_unreachable_until until t, [])

unfoldable pub run : Wiring → List Call → Timeline → Timeline × List Effect
run w [] t = (t, [])
run w (c ∷ cs) t = let (t₁, es) = call w c t in let (t₂, fs) = run w cs t₁ in (t₂, es ++ fs)

-- Whether the source has an ongoing outage.
abbrev pub is_active : String → Timeline → Bool
is_active s t = is_known (lookup (active s) t.entries)

-- Follows the notices about a source: `none` if one starts an outage that goes on already, or ends
-- one that does not.
pub follow : String → Bool → List Effect → Option Bool
follow s on [] = some on
follow s on (saved e ∷ es) = follow s on es
follow s on (published kind now e ∷ es) =
    let rest = follow s on es in
    let started = follow s true es in
    let ended = follow s false es in
    if e.source == s
    then (if kind == "outage_started"
        then (if on then none else started)
        else if on
        then ended
        else none)
    else rest

follow-append :
    (s : String) (on mid : Bool) (es fs : List Effect)
    → follow s on es ≡ some mid
    → follow s on (es ++ fs) ≡ follow s mid fs
unfolding follow
follow-append s on mid [] fs h = ground arith
follow-append s on mid (saved e ∷ es) fs h = follow-append s on mid es fs h
follow-append s on mid (published kind now e ∷ es) fs h = ground (
  arith,
  follow-append s on mid es fs,
  follow-append s true mid es fs,
  follow-append s false mid es fs,
)

-- An active entry bears its source's name.
abbrev pub IsNamed : Timeline → Type 0
IsNamed t = (s : String) (e : Entry) → lookup (active s) t.entries ≡ some e → e.source ≡ s

-- The three things that an observation of a source does.
data Observed (w : Wiring) (now : ℕ) (source : String) (t : Timeline) (r : Timeline × List Effect)
    : Type 0 where
  same : r.0.entries ≡ t.entries → r.1 ≡ [] → Observed w now source t r
  begun :
      (e : Entry)
      → e.source ≡ source
      → lookup (active source) t.entries ≡ none
      → r ≡ begin_outage w now e t
      → Observed w now source t r
  over :
      (e : Entry) (t' : Timeline)
      → t'.entries ≡ t.entries
      → lookup (active source) t.entries ≡ some e
      → r ≡ end_outage w now source e t'
      → Observed w now source t r

observe_dish-Observed :
    (w : Wiring) (now : ℕ) (reachable : Bool) (since : ℕ) (t : Timeline)
    → Observed w now source_unreachable t (observe_dish w now reachable since t)
unfolding observe_dish
observe_dish-Observed w now reachable since t =
    elim (Option-cases (lookup (active source_unreachable) t.entries)) [
      | inl e ↦ elim (Bool-cases reachable) [
        | inl up ↦ same (ground arith) (ground arith)
        | inr down ↦
            begun
              (open_entry source_unreachable
                (if ltb now t.expected_until then "expected_reboot" else "grpc_unreachable")
                (if since == 0 then now else since))
              refl e (ground arith)
      ]
      | inr (c, e) ↦ elim (Bool-cases reachable) [
        | inl up ↦ over c t refl e (ground arith)
        | inr down ↦ same (ground arith) (ground arith)
      ]
    ]

observe_path-Observed :
    (w : Wiring) (now : ℕ) (connected lost : Bool) (t : Timeline)
    → Observed w now source_path t (observe_path w now connected lost t)
unfolding observe_path
observe_path-Observed w now connected lost t = elim (Bool-cases (connected && lost)) [
  | inr fine ↦ elim (Option-cases (lookup (active source_path) t.entries)) [
    | inl e ↦ same (ground arith) (ground arith)
    | inr (c, e) ↦ over c (record t { path_pending = 0 }) refl e (ground arith)
  ]
  | inl bad ↦ elim (Option-cases (lookup (active source_path) t.entries)) [
    | inr (c, e) ↦ same (ground arith) (ground arith)
    | inl e ↦ elim (Bool-cases (t.path_pending == 0 || ltb now (t.path_pending + 30 * second))) [
      | inl early ↦ same (ground arith) (ground arith)
      | inr late ↦ begun (open_entry source_path "probe_loss" t.path_pending) refl e (ground arith)
    ]
  ]
]

-- Reports leave the active entries alone.
ingest_one-active :
    (w : Wiring) (s : String) (now : ℕ) (r : DishReport) (t : Timeline)
    → lookup (active s) (ingest_one w now r t).0.entries ≡ lookup (active s) t.entries
unfolding ingest_one
ingest_one-active w s now r t = ground (
  arith,
  lookup-insert (entry_key (incoming r)) (active s) (incoming r) t.entries,
  lookup-erase (entry_key (incoming r)) (active s) t.entries,
  lookup-insert (entry_key (incoming r)) (active s) (incoming r)
      (erase (entry_key (incoming r)) t.entries),
)

ingest_all-active :
    (w : Wiring) (s : String) (now : ℕ) (rs : List DishReport) (t : Timeline)
    → lookup (active s) (ingest_all w now rs t).0.entries ≡ lookup (active s) t.entries
unfolding ingest_all
ingest_all-active w s now [] t = refl
ingest_all-active w s now (r ∷ rs) t =
    ingest_all-active w s now rs (ingest_one w now r t).0 ∙ ingest_one-active w s now r t

ingest_dish-active :
    (w : Wiring) (s : String) (now : ℕ) (rs : List DishReport) (t : Timeline)
    → lookup (active s) (ingest_dish w now rs t).0.entries ≡ lookup (active s) t.entries
unfolding ingest_dish
ingest_dish-active w s now rs t = ingest_all-active w s now rs (prune_seen_dish now t)

module _ (w : Wiring) (on : w.has_events ≡ true) (s : String) where
  -- Reports say nothing of the other sources.
  ingest_one-follow :
      (now : ℕ) (r : DishReport) (t : Timeline) (b : Bool)
      → (source_dish == s) ≡ false
      → follow s b (ingest_one w now r t).1 ≡ some b
  unfolding ingest_one follow
  ingest_one-follow now r t b other = ground arith

  ingest_all-follow :
      (now : ℕ) (rs : List DishReport) (t : Timeline) (b : Bool)
      → (source_dish == s) ≡ false
      → follow s b (ingest_all w now rs t).1 ≡ some b
  unfolding ingest_all follow
  ingest_all-follow now [] t b other = refl
  ingest_all-follow now (r ∷ rs) t b other =
      follow-append s b b (ingest_one w now r t).1 (ingest_all w now rs (ingest_one w now r t).0).1
        (ingest_one-follow now r t b other)
      ∙ ingest_all-follow now rs (ingest_one w now r t).0 b other

  begin_outage-follow :
      (now : ℕ) (e : Entry) (t : Timeline)
      → is_active e.source t ≡ false
      → follow s (is_active s t) (begin_outage w now e t).1
        ≡ some (is_active s (begin_outage w now e t).0)
  unfolding begin_outage follow
  begin_outage-follow now e t off =
      ground (
        arith,
        lookup-insert (active e.source) (active s) e t.entries,
        string_eq.test_iff e.source s,
      )

  end_outage-follow :
      (now : ℕ) (source : String) (e : Entry) (t : Timeline)
      → lookup (active source) t.entries ≡ some e
      → e.source ≡ source
      → follow s (is_active s t) (end_outage w now source e t).1
        ≡ some (is_active s (end_outage w now source e t).0)
  unfolding end_outage follow
  end_outage-follow now source e t there named = ground (
    arith,
    lookup-erase (active source) (active s) t.entries,
    lookup-insert (entry_key (ended_entry now e)) (active s) (ended_entry now e)
        (erase (active source) t.entries),
    string_eq.test_iff source s,
  )

  Observed-follow :
      (now : ℕ) (source : String) (t : Timeline) (r : Timeline × List Effect)
      → IsNamed t
      → Observed w now source t r
      → follow s (is_active s t) r.1 ≡ some (is_active s r.0)
  unfolding follow
  Observed-follow now source t r named (same e n) =
      ap (follow s (is_active s t)) n ∙ ap (λ m. some (is_known (lookup (active s) m))) (sym e)
  Observed-follow now source t r named (begun e src off q) =
      subst (λ x. follow s (is_active s t) x.1 ≡ some (is_active s x.0)) (sym q)
        (begin_outage-follow now e t (ap (λ n. is_active n t) src ∙ ap is_known off))
  Observed-follow now source t r named (over e t' still there q) =
      subst (λ x. follow s (is_active s t) x.1 ≡ some (is_active s x.0)) (sym q)
        (ap (λ m. follow s (is_known (lookup (active s) m)) (end_outage w now source e t').1)
            (sym still)
          ∙ end_outage-follow now source e t' (ap (lookup (active source)) still ∙ there)
              (named source e there))

-- Opening and closing an outage keeps the sources' names.
begin_outage-IsNamed :
    (w : Wiring) (now : ℕ) (e : Entry) (t : Timeline)
    → IsNamed t
    → IsNamed (begin_outage w now e t).0
unfolding begin_outage
begin_outage-IsNamed w now e t named s f h = ground (
  arith,
  named s f,
  lookup-insert (active e.source) (active s) e t.entries,
  string_eq.test_iff e.source s,
)

end_outage-IsNamed :
    (w : Wiring) (now : ℕ) (source : String) (e : Entry) (t : Timeline)
    → IsNamed t
    → IsNamed (end_outage w now source e t).0
unfolding end_outage
end_outage-IsNamed w now source e t named s f h = ground (
  arith,
  named s f,
  lookup-erase (active source) (active s) t.entries,
  lookup-insert (entry_key (ended_entry now e)) (active s) (ended_entry now e)
      (erase (active source) t.entries),
)

Observed-IsNamed :
    (w : Wiring) (now : ℕ) (source : String) (t : Timeline) (r : Timeline × List Effect)
    → IsNamed t
    → Observed w now source t r
    → IsNamed r.0
Observed-IsNamed w now source t r named (same e n) =
    λ s f h. named s f (ap (lookup (active s)) (sym e) ∙ h)
Observed-IsNamed w now source t r named (begun e src off q) =
    subst (λ x. IsNamed x.0) (sym q) (begin_outage-IsNamed w now e t named)
Observed-IsNamed w now source t r named (over e t' still there q) =
    subst (λ x. IsNamed x.0) (sym q)
      (end_outage-IsNamed w now source e t'
        (λ s f h. named s f (ap (lookup (active s)) (sym still) ∙ h)))

module _ (w : Wiring) (on : w.has_events ≡ true) (s : String)
    (other : (source_dish == s) ≡ false) where
  call-follow :
      (c : Call) (t : Timeline)
      → IsNamed t
      → follow s (is_active s t) (call w c t).1 ≡ some (is_active s (call w c t).0)
  unfolding ingest_dish expect_dish_unreachable_until follow
  call-follow (reporting now rs) t named =
      ingest_all-follow w on s now rs (prune_seen_dish now t) (is_active s t) other
      ∙ ap (λ o. some (is_known o)) (sym (ingest_all-active w s now rs (prune_seen_dish now t)))
  call-follow (observing_dish now up since) t named =
      Observed-follow w on s now source_unreachable t (observe_dish w now up since t) named
        (observe_dish-Observed w now up since t)
  call-follow (observing_path now connected lost) t named =
      Observed-follow w on s now source_path t (observe_path w now connected lost t) named
        (observe_path-Observed w now connected lost t)
  call-follow (expecting until) t named = ground arith

call-IsNamed : (w : Wiring) (c : Call) (t : Timeline) → IsNamed t → IsNamed (call w c t).0
unfolding expect_dish_unreachable_until
call-IsNamed w (reporting now rs) t named =
    λ s e h. named s e (sym (ingest_dish-active w s now rs t) ∙ h)
call-IsNamed w (observing_dish now up since) t named =
    Observed-IsNamed w now source_unreachable t (observe_dish w now up since t) named
      (observe_dish-Observed w now up since t)
call-IsNamed w (observing_path now connected lost) t named =
    Observed-IsNamed w now source_path t (observe_path w now connected lost t) named
      (observe_path-Observed w now connected lost t)
call-IsNamed w (expecting until) t named = λ s e h. named s e (ground arith)

run-follow :
    (w : Wiring) (s : String) (cs : List Call) (t : Timeline)
    → w.has_events ≡ true
    → (source_dish == s) ≡ false
    → IsNamed t
    → follow s (is_active s t) (run w cs t).1 ≡ some (is_active s (run w cs t).0)
unfolding run follow
run-follow w s [] t on other named = refl
run-follow w s (c ∷ cs) t on other named =
    follow-append s (is_active s t) (is_active s (call w c t).0) (call w c t).1
      (run w cs (call w c t).0).1 (call-follow w on s other c t named)
    ∙ run-follow w s cs (call w c t).0 on other (call-IsNamed w c t named)

-- Over any sequence of calls on a new timeline, of all four kinds in any order, the notices about a
-- source other than the dish's own reports alternate between start and end, beginning with a start,
-- and the last one tells whether the timeline has an ongoing outage of that source.
pub notices_alternate :
    (w : Wiring) (s : String) (cs : List Call)
    → w.has_events ≡ true
    → (source_dish == s) ≡ false
    → follow s false (run w cs new_timeline).1 ≡ some (is_active s (run w cs new_timeline).0)
unfolding new_timeline lookup
notices_alternate w s cs on other = run-follow w s cs new_timeline on other (λ s e h. cc)
