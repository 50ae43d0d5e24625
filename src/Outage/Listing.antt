-- ===== src/Outage/Listing.antt =====
-- What `Query` and `Active` return.
use openwrt_starwatch.Base.{
  leb, ap, ◌∙◌, ℕ, zero, suc, ◌-◌, ◌≡◌, refl, not, ◌&&◌, List, [], ◌∷◌, ◌++◌, Option, none, some,
  ltb, length, drop, if◌then◌else◌, arith, Bool-cases, inl, inr, length-drop, take,
  take-append-drop,
}
use openwrt_starwatch.Base.Int.{ℤ, pos, negsuc}
use openwrt_starwatch.Base.Sort.{length-sort_by, sort_by, IsSorted, sort_by-IsSorted}
use openwrt_starwatch.Base.Maps.{◌==◌, string_eq, nat_eq}
use openwrt_starwatch.Outage.{Key, key_eq, Entry, Timeline, combine, merge, values, limited, query}

IsSorted-drop :
    {A : Type 0} (key : A → ℕ) (n : ℕ) (xs : List A) → IsSorted key xs → IsSorted key (drop n xs)
IsSorted-drop key zero xs h = h
IsSorted-drop key (suc n) [] h = tt
IsSorted-drop key (suc n) (x ∷ xs) h = IsSorted-drop key n xs h.1

-- How many of some entries are listed: at most `limit` of them if it is positive, and else all.
abbrev pub shown : ℤ → ℕ → ℕ
shown (pos (suc n)) entries = if leb (suc n) entries then suc n else entries
shown limit entries = entries

length-limited : (limit : ℤ) (es : List Entry) → length (limited limit es) ≡ shown limit (length es)
length-limited (negsuc n) es = refl
length-limited (pos zero) es = refl
length-limited (pos (suc n)) es = ground (arith, length-drop {A = Entry} (length es - suc n) es)

limited-IsSorted :
    (limit : ℤ) (es : List Entry)
    → IsSorted (λ e. e.start) es
    → IsSorted (λ e. e.start) (limited limit es)
limited-IsSorted (negsuc n) es h = h
limited-IsSorted (pos n) es h = elim (Bool-cases (not (n == 0) && ltb n (length es))) [
  | inl many ↦ rw many (IsSorted-drop (λ (e : Entry). e.start) (length es - n) es h)
  | inr few ↦ rw few h
]

-- The entries that a query lists, before the limit: those in memory that overlap the time from
-- `since` on, with those of the persistence in place of their own.
abbrev pub listed : ℕ → ℕ → Timeline → List Entry → List (Key × Entry)
listed now since t es = merge es (combine now since t.entries [])

left_out : ℤ → List Entry → List Entry
left_out (negsuc n) es = []
left_out (pos n) es = if not (n == 0) && ltb n (length es) then take (length es - n) es else []

left_out_lem : (l : ℤ) (es : List Entry) → left_out l es ++ limited l es ≡ es
unfolding left_out
left_out_lem (negsuc n) es = refl
left_out_lem (pos n) es = ground (arith, take-append-drop {A = Entry} (length es - n) es)

-- Where the persistence fails, so does the query.
query_fails :
    (stored : ℕ → ℤ → Option (List Entry)) (now since : ℕ) (limit : ℤ) (t : Timeline)
    → stored since limit ≡ none
    → query (some stored) now since limit t ≡ none
unfolding query
query_fails stored now since limit t h = rw (h, query)

-- Where the persistence returns entries, a query returns entries in order of their starts: the last
-- ones of all that are listed, as many as there are, or `limit` where that is positive and less.
pub listing_lem :
    (stored : ℕ → ℤ → Option (List Entry)) (now since : ℕ) (limit : ℤ) (t : Timeline)
    (es : List Entry)
    → stored since limit ≡ some es
    → (rs : List Entry) × (query (some stored) now since limit t ≡ some rs)
      × IsSorted (λ e. e.start) rs
      × (length rs ≡ shown limit (length (values (listed now since t es))))
      × (pre : List Entry) × (pre ++ rs ≡ sort_by (λ e. e.start) (values (listed now since t es)))
unfolding query
listing_lem stored now since limit t es h =
    let all = sort_by (λ (e : Entry). e.start) (values (listed now since t es)) in
    (
      limited limit all,
      (rw (h, query)),
      limited-IsSorted limit all
          (sort_by-IsSorted (λ (e : Entry). e.start) (values (listed now since t es))),
      length-limited limit all
          ∙ ap (shown limit)
              (length-sort_by (λ (e : Entry). e.start) (values (listed now since t es))),
      left_out limit all,
      left_out_lem limit all,
    )
