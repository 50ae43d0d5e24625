-- ===== src/Wan/Monitor/Counters.antt =====
-- When two readings of the counters give a rate.
use openwrt_starwatch.Base.{
  ℕ, ◌-◌, ◌≡◌, Bool, false, not, ◌&&◌, List, [], ◌∷◌, Option, none, some, String, ltb, leb,
  if◌then◌else◌, arith,
}
use openwrt_starwatch.Base.Maps.{nat_eq, string_eq, ◌==◌}
use openwrt_starwatch.Wan.Monitor.{
  Arithmetic, Monitor, Appended, appended, with_interface, sample_counters,
}

-- The last reading that succeeded is at an instant before `now`, and neither counter went back.
abbrev pub gives_rate : {ar : Arithmetic} → Monitor ar → ℕ → ℕ → ℕ → Bool
gives_rate m rx tx now =
    not (m.last_at == 0) && ltb m.last_at now && leb m.last_rx rx && leb m.last_tx tx

module _ (ar : Arithmetic) where
  open ar use {bits_per_second}

  abbrev pub Untouched : Monitor ar → Monitor ar → List (Appended ar) → Type 0
  Untouched m r added =
      (r.last_at ≡ m.last_at)
      × (r.last_rx ≡ m.last_rx)
      × (r.last_tx ≡ m.last_tx)
      × (r.snapshot.router_down_bps ≡ m.snapshot.router_down_bps)
      × (r.snapshot.router_up_bps ≡ m.snapshot.router_up_bps)
      × (added ≡ [])

  abbrev pub Read : Monitor ar → Monitor ar → List (Appended ar) → (ℕ → ℕ) → ℕ → ℕ → ℕ → Type 0
  Read m r added year rx tx now =
      let down = bits_per_second (rx - m.last_rx) (now - m.last_at) in
      let up = bits_per_second (tx - m.last_tx) (now - m.last_at) in
      (r.last_at ≡ now)
      × (r.last_rx ≡ rx)
      × (r.last_tx ≡ tx)
      × (r.snapshot.router_down_bps
          ≡ (if gives_rate m rx tx now then down else m.snapshot.router_down_bps))
      × (r.snapshot.router_up_bps
          ≡ (if gives_rate m rx tx now then up else m.snapshot.router_up_bps))
      × (added ≡ (
          if gives_rate m rx tx now && leb 2025 (year now)
          then appended "router_down_bps" now down ∷ appended "router_up_bps" now up ∷ []
          else []))

  -- What a sample leaves, by what could be read.
  abbrev pub Sampled :
      Option ℕ → Option ℕ → Monitor ar → Monitor ar → List (Appended ar) → (ℕ → ℕ) → ℕ → Type 0
  Sampled none tx m r added year now = Untouched m r added
  Sampled (some a) none m r added year now = Untouched m r added
  Sampled (some a) (some b) m r added year now = Read m r added year a b now

  -- A sample of the counters of a known interface, on every branch. If a file cannot be read, the last
  -- reading and the rates stay, and nothing is appended. Otherwise the reading is kept; the rates
  -- over the time since the last reading are set and, once the clock is set, appended, exactly if
  -- the last reading is of an earlier instant and no counter went back, as it does when it restarts.
  pub sample_counters_lem :
      (year : ℕ → ℕ) (found : Option String) (rx tx : Option ℕ) (up : Bool) (now : ℕ)
      (m : Monitor ar)
      → (m.snapshot.interface_name == "") ≡ false
      → let q = sample_counters ar year found rx tx up now m in
        (q.0.snapshot.up ≡ up) × Sampled rx tx m q.0 q.1 year now
  unfolding sample_counters with_interface
  sample_counters_lem year found none tx up now m named = ground (arith, named)
  sample_counters_lem year found (some a) none up now m named = ground (arith, named)
  sample_counters_lem year found (some a) (some b) up now m named = ground (arith, named)
