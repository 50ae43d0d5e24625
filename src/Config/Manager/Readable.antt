-- ===== src/Config/Manager/Readable.antt =====
-- The file that the manager keeps can always be read.
use openwrt_starwatch.Base.{
  ℕ, ◌/◌, ◌%◌, ◌≡◌, refl, Bool, true, false, List, [], ◌∷◌, Option, none, some, if◌then◌else◌,
  arith,
}
use openwrt_starwatch.Base.Effects.{All}
use openwrt_starwatch.Base.Maps.{lookup, nat_eq, ◌==◌}
use openwrt_starwatch.Base.Strings.{Text, text_eq, is_space, OneLine}
use openwrt_starwatch.Base.Text.{codes}
use openwrt_starwatch.Config.Uci.{Section, ok, OptionValue, parse_uci}
use openwrt_starwatch.Config.Rewrite.{rewrite_uci}
use openwrt_starwatch.Config.Rewrite.Appended.{AreClean}
use openwrt_starwatch.Config.Rewrite.Whole.{rewrite_uci-accepted}
use openwrt_starwatch.Config.Atomic.{Files, Outcomes, Disk, atomic_write, replaces}
use openwrt_starwatch.Config.Atomic.After.{file_after}
use openwrt_starwatch.Config.Settings.{Numbers, Config, Update}
use openwrt_starwatch.Config.Change.{Outcome, refused, done}
use openwrt_starwatch.Config.Apply.{apply_update}
use openwrt_starwatch.Config.Apply.Steps.Values.{PrintsLines, HostLines, WordNames, clean_main}
use openwrt_starwatch.Config.Apply.Steps.Written.{apply_update-AreClean}
use openwrt_starwatch.Config.Manager.{
  State, Effect, Answer, invalid, applies, audits, accepted, not_written, commit, update,
  token_update, regenerate_token, encode_hex, hex_digit, Request, updates, regenerates, serve,
  serve_all,
}

-- A text that `ParseUCI` accepts.
abbrev pub Parses : Text → Type 0
Parses s = (doc : List Section) × (parse_uci s ≡ ok doc)

hex_digit_lem : (d : ℕ) → (hex_digit d == b'\n') ≡ false
hex_digit_lem d = ground arith

OneLine-encode_hex : (bytes : List ℕ) → OneLine (encode_hex bytes)
unfolding encode_hex
OneLine-encode_hex [] = tt
OneLine-encode_hex (b ∷ bytes) =
    (hex_digit_lem (b / 16), (hex_digit_lem (b % 16), OneLine-encode_hex bytes))

module _ (num : Numbers) (prints : PrintsLines num) where
  -- What is on the disk, and what the manager takes for it, can be parsed.
  pub record IsReadable (st : State num) : Type 0 where
    pub source_parses : Parses st.manager.source
    pub on_disk : Text
    pub stored : lookup st.manager.path st.disk.now ≡ some on_disk
    pub disk_parses : Parses on_disk
    pub names : WordNames st.manager.config.alerts.rules

  after_write :
      (o : Outcomes) (name path source old : Text) (disk : Disk)
      → lookup name disk.now ≡ none
      → lookup path disk.now ≡ some old
      → Parses old
      → Parses source
      → (kept : Text) × (lookup path (atomic_write o name path source disk).1.now ≡ some kept)
        × Parses kept
  after_write o name path source old disk fresh exists p q = (
    if replaces o then source else old,
    file_after o name path source old disk fresh exists,
    elim (replaces o) as (λ b. Parses (if b then source else old)) [ true ↦ q | false ↦ p ],
  )

  -- A write leaves a readable state, whether it succeeds or not.
  commit-IsReadable :
      (o : Outcomes) (name source : Text) (config : Config num) (effects : List (Effect num))
      (st : State num)
      → IsReadable st
      → lookup name st.disk.now ≡ none
      → Parses source
      → WordNames config.alerts.rules
      → IsReadable (commit num o name source config effects st).state
  unfolding commit
  commit-IsReadable o name source config effects st r fresh q words =
      let (kept, stored, parses) =
        after_write o name st.manager.path source r.on_disk st.disk fresh r.stored r.disk_parses
          q in
      elim (atomic_write o name st.manager.path source st.disk).0
        as (λ b. IsReadable (answer b).state) [
          | true ↦ record {
            source_parses = q;
            on_disk = kept;
            stored = stored;
            disk_parses = parses;
            names = words;
          }
          | false ↦ record {
            source_parses = r.source_parses;
            on_disk = kept;
            stored = stored;
            disk_parses = parses;
            names = r.names;
          }
        ]
    where
      disk : Disk
      disk = (atomic_write o name st.manager.path source st.disk).1

      answer : Bool → Answer num
      answer b =
          if b
          then record {
            reply = accepted;
            state = record {
              manager = record { path = st.manager.path; source = source; config = config };
              disk = disk;
            };
            effects = effects;
          }
          else record { reply = not_written; state = record st { disk = disk }; effects = [] }

  rewritten-Parses :
      (source : Text) (changes : List OptionValue)
      → AreClean changes
      → Parses source
      → Parses (rewrite_uci source changes)
  rewritten-Parses source changes clean (doc, e) = rewrite_uci-accepted source changes clean doc e

  pub update-IsReadable :
      (u : Update num) (now : ℕ) (o : Outcomes) (name : Text) (st : State num)
      → HostLines u.main
      → IsReadable st
      → lookup name st.disk.now ≡ none
      → IsReadable (update num u now o name st).state
  unfolding update
  update-IsReadable u now o name st hosts r fresh =
      by_outcome (apply_update num u now st.manager.config) refl
    where
      by_outcome :
          (a : Outcome (Config num))
          → apply_update num u now st.manager.config ≡ a
          → IsReadable
              (elim a as (λ x. Answer num) [
                | refused e ↦ record { reply = invalid e; state = st; effects = [] }
                | done (candidate, changes) ↦
                    commit num o name
                      (rewrite_uci st.manager.source changes)
                      candidate
                      (applies candidate ∷ audits (codes "update") ∷ [])
                      st
              ]).state
      by_outcome (refused e) h = r
      by_outcome (done (candidate, changes)) h =
          let (clean, words) =
            apply_update-AreClean num prints u now st.manager.config candidate changes hosts r.names
              h in
          commit-IsReadable o name (rewrite_uci st.manager.source changes) candidate
            (applies candidate ∷ audits (codes "update") ∷ []) st r fresh
            (rewritten-Parses st.manager.source changes clean r.source_parses) words

  token_clean : (bytes : List ℕ) → AreClean (token_update (encode_hex bytes) ∷ [])
  unfolding is_space
  token_clean bytes =
      clean_main (codes "token") (encode_hex bytes) refl refl (OneLine-encode_hex bytes)

  pub regenerate_token-IsReadable :
      (bytes : Option (List ℕ)) (o : Outcomes) (name : Text) (st : State num)
      → IsReadable st
      → lookup name st.disk.now ≡ none
      → IsReadable (regenerate_token num bytes o name st).state
  unfolding regenerate_token
  regenerate_token-IsReadable none o name st r fresh = r
  regenerate_token-IsReadable (some bytes) o name st r fresh =
      commit-IsReadable o name
        (rewrite_uci st.manager.source (token_update (encode_hex bytes) ∷ []))
        (let config = st.manager.config in record config { token = encode_hex bytes })
        (audits (codes "regenerate_token") ∷ []) st r fresh
        (rewritten-Parses st.manager.source (token_update (encode_hex bytes) ∷ [])
          (token_clean bytes) r.source_parses)
        r.names

  abbrev pub RequestLines : Request num → Type 0
  RequestLines (updates u now o) = HostLines u.main
  RequestLines (regenerates bytes o) = Unit

  -- `os.CreateTemp` takes a name that is not in use.
  module _ (new_name : Files → Text)
      (is_new : (files : Files) → lookup (new_name files) files ≡ none) where
    serve-IsReadable :
        (q : Request num) (st : State num)
        → RequestLines q
        → IsReadable st
        → IsReadable (serve num new_name q st).state
    unfolding serve
    serve-IsReadable (updates u now o) st hosts r =
        update-IsReadable u now o (new_name st.disk.now) st hosts r (is_new st.disk.now)
    serve-IsReadable (regenerates bytes o) st lines r =
        regenerate_token-IsReadable bytes o (new_name st.disk.now) st r (is_new st.disk.now)

    -- Whatever requests come, whichever calls of the operating system fail: the file that is on the disk
    -- then can be parsed, and so can the source that the manager keeps. The requests' probe hosts have no line
    -- breaks, and what `strconv` and `time` print has none.
    pub serve_all-IsReadable :
        (requests : List (Request num)) (st : State num)
        → All RequestLines requests
        → IsReadable st
        → IsReadable (serve_all num new_name requests st)
    unfolding serve_all
    serve_all-IsReadable [] st lines r = r
    serve_all-IsReadable (q ∷ requests) st (h, hs) r =
        serve_all-IsReadable requests (serve num new_name q st).state hs (serve-IsReadable q st h r)
