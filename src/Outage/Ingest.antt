-- ===== src/Outage/Ingest.antt =====
-- What `IngestDish` does with a report, and with one that it has had before.
use openwrt_starwatch.Base.{
  ℕ, ◌+◌, ◌≡◌, ◌&&◌, ◌||◌, List, [], ◌∷◌, ◌++◌, some, String, if◌then◌else◌, arith,
}
use openwrt_starwatch.Base.Maps.{lookup, insert, ◌==◌, lookup-insert, ==-refl, string_eq, nat_eq}
use openwrt_starwatch.Outage.{Key, key_eq, Timeline, Effect, saved, published, entry_key, is_known}

-- Reading back what was just written.
pub lookup-insert_self :
    {V : Type 0} (k : Key) (v : V) (m : List (Key × V)) → lookup k (insert k v m) ≡ some v
lookup-insert_self k v m = ground (arith, lookup-insert k k v m, ==-refl {A = Key} k)

-- The notices of one kind about one outage among some effects.
pub notices : String → Key → List Effect → ℕ
notices kind k [] = 0
notices kind k (saved e ∷ es) = notices kind k es
notices kind k (published kind' now e ∷ es) =
    let rest = notices kind k es in if (kind' == kind) && (entry_key e == k) then rest + 1 else rest

pub notices-append :
    (kind : String) (k : Key) (es fs : List Effect)
    → notices kind k (es ++ fs) ≡ notices kind k es + notices kind k fs
unfolding notices
notices-append kind k [] fs = omega arith
notices-append kind k (saved e ∷ es) fs = notices-append kind k es fs
notices-append kind k (published kind' now e ∷ es) fs = ground (arith, notices-append kind k es fs)

-- 1 for an outage that the timeline has an entry for, or has seen the end of, else 0.
abbrev pub known_outages : Key → Timeline → ℕ
known_outages k t = if is_known (lookup k t.entries) || is_known (lookup k t.seen) then 1 else 0
