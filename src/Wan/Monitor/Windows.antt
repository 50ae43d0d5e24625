-- ===== src/Wan/Monitor/Windows.antt =====
-- Samples that `probeOnce` drops no longer count in any window: dropping them changes no result.
use mathlib.Core.Path.{subst}
use openwrt_starwatch.Base.{
  ℕ, ◌-◌, ◌≤◌, ◌≡◌, refl, ap, sym, ◌∙◌, Bool, true, false, List, [], ◌∷◌, ◌++◌, append_assoc,
  append-nil, ◌⊎◌, Option, none, some, String, ltb, length, if◌then◌else◌, arith, Bool-cases, inl,
  inr,
}
use openwrt_starwatch.Base.Int.{ℤ}
use openwrt_starwatch.Base.Effects.{All, All-append}
use openwrt_starwatch.Base.Maps.{nat_eq, string_eq, ◌==◌}
use openwrt_starwatch.Wan.Monitor.{
  Arithmetic, ProbeSample, Totals, five_minutes, thirty_seconds, totals_since, no_totals,
  drop_before, window_of, probe_window, Monitor, discover, with_interface, set_probe_config,
  probe_all, store_round, probe_once, sample_counters, new_monitor,
}

-- Samples older than an instant.
abbrev Old : ℕ → List ProbeSample → Type 0
Old cutoff ps = All (λ p. ltb p.at cutoff ≡ true) ps

Old-mono : (c d : ℕ) (ps : List ProbeSample) → c ≤ d → Old c ps → Old d ps
Old-mono c d [] h o = tt
Old-mono c d (p ∷ ps) h o = (ground (arith, o.0), Old-mono c d ps h o.1)

-- What `drop_before` drops from the front.
drop_before_split :
    (cutoff : ℕ) (ps : List ProbeSample)
    → (pre : List ProbeSample) × (ps ≡ pre ++ drop_before cutoff ps) × Old cutoff pre
unfolding drop_before
drop_before_split cutoff [] = ([], refl, tt)
drop_before_split cutoff (p ∷ ps) = elim (Bool-cases (ltb p.at cutoff)) [
  | inl old ↦
      let (pre, e, o) = drop_before_split cutoff ps in (p ∷ pre, ground (arith, old, e), (old, o))
  | inr recent ↦ ([], ground (arith, recent), tt)
]

totals_since-Old :
    (since : ℕ) (pre ps : List ProbeSample) (t : Totals)
    → Old since pre
    → totals_since (pre ++ ps) since t ≡ totals_since ps since t
unfolding totals_since
totals_since-Old since [] ps t o = refl
totals_since-Old since (p ∷ pre) ps t o = ground (arith, o.0, totals_since-Old since pre ps t o.1)

-- What is called on a monitor.
module _ (ar : Arithmetic) where
  pub data Call : Type 0 where
    probing : Option String → (String → String → ℤ × Bool) → ℕ → Call
    counting : Option String → Option ℕ → Option ℕ → Bool → ℕ → Call
    discovering : Option String → Call
    configuring : List String → ℤ → Call

  unfoldable pub call : (ℕ → ℕ) → Call → Monitor ar → Monitor ar
  call year (probing found probe now) m = (probe_once ar year found probe now m).0
  call year (counting found rx tx up now) m = (sample_counters ar year found rx tx up now m).0
  call year (discovering found) m = discover ar found m
  call year (configuring hosts interval) m = set_probe_config ar hosts interval m

  unfoldable pub run : (ℕ → ℕ) → List Call → Monitor ar → Monitor ar
  run year [] m = m
  run year (c ∷ cs) m = run year cs (call year c m)

  -- The samples that a call takes: one for each host, if the interface is known.
  abbrev pub taken : Call → Monitor ar → List ProbeSample
  taken (probing found probe now) m =
      let m₁ = with_interface ar found m in
      if m₁.snapshot.interface_name == ""
      then []
      else probe_all ar (probe m₁.snapshot.interface_name) now m₁.hosts
  taken (counting found rx tx up now) m = []
  taken (discovering found) m = []
  taken (configuring hosts interval) m = []

  abbrev pub all_taken : (ℕ → ℕ) → List Call → Monitor ar → List ProbeSample
  all_taken year [] m = []
  all_taken year (c ∷ cs) m = taken c m ++ all_taken year cs (call year c m)

  -- The clock of the rounds does not go back, from `last` on to `end`.
  abbrev pub IsSteady : ℕ → List Call → ℕ → Type 0
  IsSteady last [] end = last ≤ end
  IsSteady last (probing found probe now ∷ cs) end = (last ≤ now) × IsSteady now cs end
  IsSteady last (counting found rx tx up now ∷ cs) end = IsSteady last cs end
  IsSteady last (discovering found ∷ cs) end = IsSteady last cs end
  IsSteady last (configuring hosts interval ∷ cs) end = IsSteady last cs end

  -- The samples held are those taken, less some older than five minutes before `last`.
  Kept : ℕ → List ProbeSample → List ProbeSample → Type 0
  Kept last taken_so_far held =
      (pre : List ProbeSample) × (taken_so_far ≡ pre ++ held) × Old (last - five_minutes) pre

  Kept-later :
      (last now : ℕ) (h ps : List ProbeSample) → last ≤ now → Kept last h ps → Kept now h ps
  unfolding Kept
  Kept-later last now h ps le (pre, e, o) =
      (pre, e, Old-mono (last - five_minutes) (now - five_minutes) pre (omega arith) o)

  Kept-round :
      (now : ℕ) (h ps round : List ProbeSample)
      → Kept now h ps
      → Kept now (h ++ round) (drop_before (now - five_minutes) (ps ++ round))
  unfolding Kept
  Kept-round now h ps round (pre, e, o) =
      let (more, f, q) = drop_before_split (now - five_minutes) (ps ++ round) in
      (
        pre ++ more,
        ap (λ l. l ++ round) e
            ∙ append_assoc pre ps round
            ∙ ap (λ l. pre ++ l) f
            ∙ sym (append_assoc pre more (drop_before (now - five_minutes) (ps ++ round))),
        All-append (λ p. ltb p.at (now - five_minutes) ≡ true) pre more o q,
      )

  Kept-window :
      (now since : ℕ) (h ps : List ProbeSample)
      → Kept now h ps
      → now - five_minutes ≤ since
      → probe_window ar ps since ≡ probe_window ar h since
  unfolding Kept probe_window
  Kept-window now since h ps (pre, e, o) le = ap (window_of ar) (
      sym (totals_since-Old since pre ps no_totals (Old-mono (now - five_minutes) since pre le o))
      ∙ ap (λ l. totals_since l since no_totals) (sym e))

  probes-with_interface :
      (found : Option String) (m : Monitor ar)
      → ((with_interface ar found m).probes ≡ m.probes)
        × ((with_interface ar found m).hosts ≡ m.hosts)
  unfolding with_interface discover
  probes-with_interface none m = ground arith
  probes-with_interface (some name) m = ground arith

  probe_all-none :
      (probe : String → ℤ × Bool) (now : ℕ) (hosts : List String)
      → (length hosts == 0) ≡ true
      → probe_all ar probe now hosts ≡ []
  probe_all-none probe now [] h = refl
  probe_all-none probe now (x ∷ hosts) h = ground (arith, h)

  -- A round either stores its samples, or takes none.
  probes-probe_once :
      (year : ℕ → ℕ) (found : Option String) (probe : String → String → ℤ × Bool) (now : ℕ)
      (m : Monitor ar)
      → (((probe_once ar year found probe now m).0.probes ≡ m.probes)
          × (taken (probing found probe now) m ≡ []))
        ⊎ ((probe_once ar year found probe now m).0.probes
            ≡ drop_before (now - five_minutes) (m.probes ++ taken (probing found probe now) m))
  unfolding probe_once store_round
  probes-probe_once year found probe now m =
      let m₁ = with_interface ar found m in
      ground (
        arith,
        probes-with_interface found m,
        probe_all-none (probe m₁.snapshot.interface_name) now m₁.hosts,
      )

  probes-sample_counters :
      (year : ℕ → ℕ) (found : Option String) (rx tx : Option ℕ) (up : Bool) (now : ℕ)
      (m : Monitor ar)
      → (sample_counters ar year found rx tx up now m).0.probes ≡ m.probes
  unfolding sample_counters
  probes-sample_counters year found rx tx up now m = ground (arith, probes-with_interface found m)

  probes-discover :
      (found : Option String) (m : Monitor ar) → (discover ar found m).probes ≡ m.probes
  unfolding discover
  probes-discover found m = ground arith

  probes-set_probe_config :
      (hosts : List String) (interval : ℤ) (m : Monitor ar)
      → (set_probe_config ar hosts interval m).probes ≡ m.probes
  unfolding set_probe_config
  probes-set_probe_config hosts interval m = refl

  new-Kept : (hosts : List String) (interval : ℤ) → Kept 0 [] (new_monitor ar hosts interval).probes
  unfolding Kept new_monitor
  new-Kept hosts interval = ([], refl, tt)

  Kept-nothing :
      (last : ℕ) (h ps qs round : List ProbeSample)
      → Kept last h ps
      → qs ≡ ps
      → round ≡ []
      → Kept last (h ++ round) qs
  Kept-nothing last h ps qs round kept same nothing =
      subst (Kept last (h ++ round)) (sym same)
        (subst (λ l. Kept last l ps) (sym (ap (λ l. h ++ l) nothing ∙ append-nil h)) kept)

  Kept-probe :
      (year : ℕ → ℕ) (found : Option String) (probe : String → String → ℤ × Bool) (last now : ℕ)
      (h : List ProbeSample) (m : Monitor ar)
      → Kept last h m.probes
      → last ≤ now
      → Kept now
          (h ++ taken (probing found probe now) m)
          (probe_once ar year found probe now m).0.probes
  Kept-probe year found probe last now h m kept le =
      elim (probes-probe_once year found probe now m) [
        | inl (same, nothing) ↦
            Kept-nothing now h m.probes (probe_once ar year found probe now m).0.probes
              (taken (probing found probe now) m) (Kept-later last now h m.probes le kept) same
              nothing
        | inr stored ↦ subst (Kept now (h ++ taken (probing found probe now) m)) (sym stored) (
            Kept-round now h m.probes (taken (probing found probe now) m)
              (Kept-later last now h m.probes le kept))
      ]

  Kept-call :
      (year : ℕ → ℕ) (c : Call) (cs : List Call) (last end : ℕ) (h : List ProbeSample)
      (m : Monitor ar)
      → Kept last h m.probes
      → IsSteady last (c ∷ cs) end
      → (now : ℕ) × Kept now (h ++ taken c m) (call year c m).probes × IsSteady now cs end
  unfolding call
  Kept-call year (probing found probe now) cs last end h m kept (le, steady) =
      (now, Kept-probe year found probe last now h m kept le, steady)
  Kept-call year (counting found rx tx up now) cs last end h m kept steady = (
    last,
    Kept-nothing last h m.probes (sample_counters ar year found rx tx up now m).0.probes [] kept
        (probes-sample_counters year found rx tx up now m) refl,
    steady,
  )
  Kept-call year (discovering found) cs last end h m kept steady = (
    last,
    Kept-nothing last h m.probes (discover ar found m).probes [] kept (probes-discover found m)
        refl,
    steady,
  )
  Kept-call year (configuring hosts interval) cs last end h m kept steady = (
    last,
    Kept-nothing last h m.probes (set_probe_config ar hosts interval m).probes [] kept
        (probes-set_probe_config hosts interval m) refl,
    steady,
  )

  Kept-run :
      (year : ℕ → ℕ) (cs : List Call) (last end : ℕ) (h : List ProbeSample) (m : Monitor ar)
      → Kept last h m.probes
      → IsSteady last cs end
      → Kept end (h ++ all_taken year cs m) (run year cs m).probes
  unfolding run
  Kept-run year [] last end h m kept le =
      Kept-nothing end h m.probes m.probes [] (Kept-later last end h m.probes le kept) refl refl
  Kept-run year (c ∷ cs) last end h m kept steady =
      let (now, kept', steady') = Kept-call year c cs last end h m kept steady in
      subst (λ l. Kept end l (run year cs (call year c m)).probes)
        (append_assoc h (taken c m) (all_taken year cs (call year c m)))
        (Kept-run year cs now end (h ++ taken c m) (call year c m) kept' steady')

  -- The windows of a stored round are those of the samples held after it.
  windows-probe_once :
      (year : ℕ → ℕ) (found : Option String) (probe : String → String → ℤ × Bool) (now : ℕ)
      (m : Monitor ar)
      → ((with_interface ar found m).snapshot.interface_name == "") ≡ false
      → (length m.hosts == 0) ≡ false
      → let r = (probe_once ar year found probe now m).0 in
        (r.snapshot.last_30s ≡ probe_window ar r.probes (now - thirty_seconds))
        × (r.snapshot.last_5m ≡ probe_window ar r.probes (now - five_minutes))
  unfolding probe_once store_round
  windows-probe_once year found probe now m named some_hosts =
      ground (arith, named, some_hosts, probes-with_interface found m)

  -- After any calls on a new monitor, with rounds of probes at instants that do not go back, a round
  -- for which the interface is known and which has hosts gives the windows of 30 seconds and of five
  -- minutes over all the samples ever taken, those of this round included: the samples that the
  -- monitor has dropped are missed by neither window.
  pub windows_lem :
      (year : ℕ → ℕ) (hosts : List String) (interval : ℤ) (cs : List Call) (found : Option String)
      (probe : String → String → ℤ × Bool) (now : ℕ)
      → IsSteady 0 cs now
      → let m = run year cs (new_monitor ar hosts interval) in
        ((with_interface ar found m).snapshot.interface_name == "") ≡ false
        → (length m.hosts == 0) ≡ false
        → let r = (probe_once ar year found probe now m).0 in
          let all_samples =
            all_taken year cs (new_monitor ar hosts interval)
            ++ taken (probing found probe now) m in
          (r.snapshot.last_30s ≡ probe_window ar all_samples (now - thirty_seconds))
          × (r.snapshot.last_5m ≡ probe_window ar all_samples (now - five_minutes))
  windows_lem year hosts interval cs found probe now steady named some_hosts =
      let m₀ = new_monitor ar hosts interval in
      let m = run year cs m₀ in
      let kept = Kept-run year cs 0 now [] m₀ (new-Kept hosts interval) steady in
      let kept' = Kept-probe year found probe now now (all_taken year cs m₀) m kept (omega arith) in
      let h = all_taken year cs m₀ ++ taken (probing found probe now) m in
      let ps = (probe_once ar year found probe now m).0.probes in
      let (short, long) = windows-probe_once year found probe now m named some_hosts in
      (
        short ∙ Kept-window now (now - thirty_seconds) h ps kept' (omega arith),
        long ∙ Kept-window now (now - five_minutes) h ps kept' (omega arith),
      )
