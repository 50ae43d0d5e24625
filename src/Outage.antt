-- ===== src/Outage.antt =====
-- router/internal/outage/timeline.go: outages of the dish, of its gRPC service and of the WAN path.
-- Instants count nanoseconds from the zero `time.Time` on; durations are signed. One operation reads
-- the clock once: its `now` is also the time of the messages that it publishes. What an operation
-- saves and publishes is the list of its effects. A map key, which the code formats as a text of the
-- source, the cause and the start joined by NUL bytes, is a `Key` of those parts.
pub mod Ingest
pub mod Notices
pub mod Debounce
pub mod Listing
mod Tests
use openwrt_starwatch.Base.{
  ℕ, ◌+◌, ◌-◌, ◌*◌, ◌≡◌, ◌↔◌, refl, Bool, true, false, not, ◌&&◌, ◌||◌, List, [], ◌∷◌, ◌++◌, Option,
  none, some, String, ltb, leb, keep, drop, length, map, if◌then◌else◌, arith,
}
use openwrt_starwatch.Base.Int.{ℤ, pos, negsuc, sub_ℕ, leb_ℤ}
use openwrt_starwatch.Base.Maps.{Keys, lookup, insert, erase, string_eq, nat_eq, ◌==◌}
use openwrt_starwatch.Base.Sort.{sort_by}
use openwrt_starwatch.History.{second}

pub data Key : Type 0 where
  active : String → Key
  closed : String → String → ℕ → Key

abbrev pub key_beq : Key → Key → Bool
key_beq (active s) (active s') = s == s'
key_beq (closed s c t) (closed s' c' t') = s == s' && c == c' && t == t'
key_beq _ _ = false

pub key_beq_iff : (a b : Key) → (key_beq a b ≡ true) ↔ (a ≡ b)
key_beq_iff (active s) (active s') = ground (arith, string_eq.test_iff s s')
key_beq_iff (active s) (closed s' c' t') = ground arith
key_beq_iff (closed s c t) (active s') = ground arith
key_beq_iff (closed s c t) (closed s' c' t') =
    ground (arith, string_eq.test_iff s s', string_eq.test_iff c c')

instance abbrev pub key_eq : Keys Key
key_eq = record { same = key_beq; test_iff = key_beq_iff }

pub record Entry : Type 0 where
  pub source : String
  pub cause : String
  pub start : ℕ
  pub duration : ℤ
  pub ongoing : Bool

pub record DishReport : Type 0 where
  pub cause : String
  pub start : ℕ
  pub duration : ℤ

pub record SeenEntry : Type 0 where
  pub duration : ℤ
  pub ended : ℕ

pub record Timeline : Type 0 where
  pub entries : List (Key × Entry)
  pub seen : List (Key × SeenEntry)
  pub path_pending : ℕ
  pub expected_until : ℕ

-- The options that decide what an operation does besides: `Persistence` and `Events` may be nil.
pub record Wiring : Type 0 where
  pub has_persistence : Bool
  pub has_events : Bool

pub data Effect : Type 0 where
  saved : Entry → Effect
  published : String → ℕ → Entry → Effect

abbrev pub source_dish : String
source_dish = "dish"

abbrev pub source_unreachable : String
source_unreachable = "dish_unreachable"

abbrev pub source_path : String
source_path = "path"

unfoldable pub new_timeline : Timeline
new_timeline = record { entries = []; seen = []; path_pending = 0; expected_until = 0 }

abbrev pub entry_key : Entry → Key
entry_key e = closed e.source e.cause e.start

-- `t.Add(d)`; the code adds only durations that are not negative.
abbrev pub add_duration : ℕ → ℤ → ℕ
add_duration t (pos d) = t + d
add_duration t (negsuc d) = t - (d + 1)

abbrev pub nonnegative_duration : ℤ → ℤ
nonnegative_duration (pos d) = pos d
nonnegative_duration (negsuc d) = pos 0

abbrev pub persist : Wiring → Entry → List Effect
persist w e = if w.has_persistence then saved e ∷ [] else []

abbrev pub publish : Wiring → String → ℕ → Entry → List Effect
publish w kind now e = if w.has_events then published kind now e ∷ [] else []

unfoldable pub expect_dish_unreachable_until : ℕ → Timeline → Timeline
expect_dish_unreachable_until until t =
    if ltb t.expected_until until then record t { expected_until = until } else t

-- `!closed.end.IsZero() && closed.end.Before(cutoff)`
abbrev pub is_stale : ℕ → SeenEntry → Bool
is_stale cutoff s = not (s.ended == 0) && ltb s.ended cutoff

unfoldable pub prune_seen_dish : ℕ → Timeline → Timeline
prune_seen_dish now t = record t {
  seen = keep (λ p. not (is_stale (now - 3600 * second) p.1)) t.seen;
}

abbrev pub incoming : DishReport → Entry
incoming r = record {
  source = source_dish;
  cause = r.cause;
  start = r.start;
  duration = r.duration;
  ongoing = leb_ℤ r.duration (pos 0);
}

abbrev pub is_known : {A : Type 0} → Option A → Bool
is_known none = false
is_known (some a) = true

abbrev pub is_ongoing : Option Entry → Bool
is_ongoing none = false
is_ongoing (some e) = e.ongoing

-- A report that the loop passes over: an outage that is known to be over and no longer than known,
-- or one that is known to go on.
abbrev pub is_repeated : Entry → Option Entry → Option SeenEntry → Bool
is_repeated e current none = is_known current && e.ongoing
is_repeated e current (some s) =
    (e.ongoing || leb_ℤ e.duration s.duration) || (is_known current && e.ongoing)

-- The body of `IngestDish`'s loop.
unfoldable pub ingest_one : Wiring → ℕ → DishReport → Timeline → Timeline × List Effect
ingest_one w now r t =
    let e = incoming r in
    let key = entry_key e in
    let current = lookup key t.entries in
    if r.start == 0 || is_repeated e current (lookup key t.seen)
    then (t, [])
    else if e.ongoing
    then (
      record t { entries = insert key e t.entries },
      (if is_known current then [] else publish w "outage_started" now e),
    )
    else (
      record t {
        entries =
            if w.has_persistence then erase key t.entries else insert key e (erase key t.entries);
        seen =
            insert key (record { duration = e.duration; ended = add_duration e.start e.duration })
              t.seen;
      },
      persist w e ++ (if is_ongoing current then publish w "outage_ended" now e else []),
    )

unfoldable pub ingest_all : Wiring → ℕ → List DishReport → Timeline → Timeline × List Effect
ingest_all w now [] t = (t, [])
ingest_all w now (r ∷ rs) t =
    let (t₁, es) = ingest_one w now r t in let (t₂, fs) = ingest_all w now rs t₁ in (t₂, es ++ fs)

unfoldable pub ingest_dish : Wiring → ℕ → List DishReport → Timeline → Timeline × List Effect
unfolding ingest_all prune_seen_dish
ingest_dish w now rs t = ingest_all w now rs (prune_seen_dish now t)

abbrev pub open_entry : String → String → ℕ → Entry
open_entry source cause start = record {
  source = source;
  cause = cause;
  start = start;
  duration = pos 0;
  ongoing = true;
}

-- What `ObserveDish` and `ObservePath` do alike: open the active entry of a source, and close it.
unfoldable pub begin_outage : Wiring → ℕ → Entry → Timeline → Timeline × List Effect
begin_outage w now e t =
    (record t { entries = insert (active e.source) e t.entries }, publish w "outage_started" now e)

abbrev pub ended_entry : ℕ → Entry → Entry
ended_entry now e = record e {
  duration = nonnegative_duration (sub_ℕ now e.start);
  ongoing = false;
}

unfoldable pub end_outage : Wiring → ℕ → String → Entry → Timeline → Timeline × List Effect
end_outage w now source current t =
    let e = ended_entry now current in
    let left = erase (active source) t.entries in
    (
      record t {
        entries = if w.has_persistence then left else insert (entry_key e) e left;
        seen =
            insert (entry_key e)
              (record { duration = e.duration; ended = add_duration e.start e.duration }) t.seen;
      },
      persist w e ++ publish w "outage_ended" now e,
    )

unfoldable pub observe_dish : Wiring → ℕ → Bool → ℕ → Timeline → Timeline × List Effect
observe_dish w now reachable failure_since t = elim (lookup (active source_unreachable) t.entries) [
  | some current ↦ if reachable then end_outage w now source_unreachable current t else (t, [])
  | none ↦
      if reachable
      then (t, [])
      else begin_outage w now
          (open_entry source_unreachable
            (if ltb now t.expected_until then "expected_reboot" else "grpc_unreachable")
            (if failure_since == 0 then now else failure_since))
          t
]

unfoldable pub observe_path : Wiring → ℕ → Bool → Bool → Timeline → Timeline × List Effect
observe_path w now dish_connected all_probes_lost t =
    let current = lookup (active source_path) t.entries in
    if dish_connected && all_probes_lost
    then (if is_known current
        then (t, [])
        else if t.path_pending == 0
        then (record t { path_pending = now }, [])
        else if ltb now (t.path_pending + 30 * second)
        then (t, [])
        else begin_outage w now (open_entry source_path "probe_loss" t.path_pending) t)
    else elim current [
      | none ↦ (record t { path_pending = 0 }, [])
      | some e ↦ end_outage w now source_path e (record t { path_pending = 0 })
    ]

-- An entry as a listing shows it: the duration of an ongoing one is the time since its start.
abbrev pub refreshed : ℕ → Entry → Entry
refreshed now e =
    if e.ongoing then record e { duration = nonnegative_duration (sub_ℕ now e.start) } else e

abbrev pub canonical_key : Key → Entry → Key
canonical_key key e = if e.ongoing then key else entry_key e

abbrev pub overlaps_since : Entry → ℕ → Bool
overlaps_since e since = e.ongoing || not (ltb (add_duration e.start e.duration) since)

-- The first loop of `Query`, over the entries in memory.
unfoldable pub combine : ℕ → ℕ → List (Key × Entry) → List (Key × Entry) → List (Key × Entry)
combine now since [] combined = combined
combine now since ((k, e) ∷ m) combined = combine now since m (
    if overlaps_since (refreshed now e) since
    then insert (canonical_key k (refreshed now e)) (refreshed now e) combined
    else combined)

-- The second loop, over what the persistence returns.
unfoldable pub merge : List Entry → List (Key × Entry) → List (Key × Entry)
merge [] combined = combined
merge (e ∷ es) combined = merge es (insert (entry_key e) e combined)

abbrev pub values : List (Key × Entry) → List Entry
values [] = []
values ((k, e) ∷ m) = e ∷ values m

abbrev pub limited : ℤ → List Entry → List Entry
limited (negsuc n) es = es
limited (pos limit) es =
    if not (limit == 0) && ltb limit (length es) then drop (length es - limit) es else es

-- `Query`: `stored` is the persistence, which may be nil, and may fail (`none`).
unfoldable pub query :
    Option (ℕ → ℤ → Option (List Entry)) → ℕ → ℕ → ℤ → Timeline → Option (List Entry)
unfolding combine merge
query none now since limit t =
    some (limited limit (sort_by (λ e. e.start) (values (combine now since t.entries []))))
query (some stored) now since limit t = elim (stored since limit) [
  | none ↦ none
  | some es ↦
      some (
        limited limit (sort_by (λ e. e.start) (values (merge es (combine now since t.entries [])))))
]

-- `Active`: the ongoing entries, by their start.
unfoldable pub active_entries : ℕ → Timeline → List Entry
active_entries now t =
    sort_by (λ e. e.start) (map (refreshed now) (keep (λ e. e.ongoing) (values t.entries)))
