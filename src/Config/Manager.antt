-- ===== src/Config/Manager.antt =====
-- `Manager` of router/internal/config/manager.go: the configuration in memory, its file, and the
-- operations on both. The floats, the name of a new temporary file, the random bytes and what the calls of
-- the operating system return are arguments; the callback `Apply` and the audit are effects.
pub mod Readable
pub mod Unary
mod Tests
pub mod Commit
pub mod Reload
use openwrt_starwatch.Base.{
  ℕ, zero, suc, ◌+◌, ◌-◌, ◌/◌, ◌%◌, ◌≡◌, Bool, true, false, List, [], ◌∷◌, ◌++◌, Option, none, some,
  if◌then◌else◌, length, leb, ltb, arith,
}
use openwrt_starwatch.Base.Maps.{lookup}
use openwrt_starwatch.Base.Strings.{Text, text_eq}
use openwrt_starwatch.Base.Text.{codes}
use openwrt_starwatch.Config.Uci.{OptionValue}
use openwrt_starwatch.Config.Rewrite.{rewrite_uci}
use openwrt_starwatch.Config.Atomic.{Files, Outcomes, Disk, atomic_write}
use openwrt_starwatch.Config.Settings.{Numbers, Config, Update}
use openwrt_starwatch.Config.Change.{Refusal, Outcome, refused, done, main_section}
use openwrt_starwatch.Config.Apply.{apply_update}

abbrev pub hex_digit : ℕ → ℕ
hex_digit d = if ltb d 10 then b'0' + d else b'a' + (d - 10)

-- `hex.EncodeToString`
unfoldable pub encode_hex : List ℕ → Text
encode_hex [] = []
encode_hex (b ∷ bytes) = hex_digit (b / 16) ∷ hex_digit (b % 16) ∷ encode_hex bytes

abbrev pub token_update : Text → OptionValue
token_update token = record { section = main_section; option = codes "token"; value = token }

module _ (num : Numbers) where
  pub record Manager : Type 0 where
    pub path : Text
    pub source : Text
    pub config : Config num

  -- `NewManager`, which reads the file.
  unfoldable pub new_manager : Text → Config num → Files → Option Manager
  unfolding lookup
  new_manager path config files = elim (lookup path files) [
    | none ↦ none
    | some source ↦ some (record { path = path; source = source; config = config })
  ]

  pub record State : Type 0 where
    pub manager : Manager
    pub disk : Disk

  pub data Effect : Type 0 where
    applies : Config num → Effect
    audits : Text → Effect

  pub data Reply : Type 0 where
    accepted : Reply
    invalid : Refusal → Reply
    not_written : Reply
    no_random : Reply

  pub record Answer : Type 0 where
    pub reply : Reply
    pub state : State
    pub effects : List Effect

  -- Once the new source is made: the write, and only where it succeeds the rest.
  unfoldable pub commit : Outcomes → Text → Text → Config num → List Effect → State → Answer
  commit o name source config effects st =
      let m = st.manager in
      let (written, disk) = atomic_write o name m.path source st.disk in
      if written
      then record {
        reply = accepted;
        state = record { manager = record m { source = source; config = config }; disk = disk };
        effects = effects;
      }
      else record { reply = not_written; state = record st { disk = disk }; effects = [] }

  -- `Update`
  unfoldable pub update : Update num → ℕ → Outcomes → Text → State → Answer
  unfolding apply_update commit rewrite_uci
  update u now o name st = elim (apply_update num u now st.manager.config) [
    | refused e ↦ record { reply = invalid e; state = st; effects = [] }
    | done (candidate, changes) ↦
        commit o name (rewrite_uci st.manager.source changes) candidate
          (applies candidate ∷ audits (codes "update") ∷ []) st
  ]

  -- `RegenerateToken`, with the random bytes or their failure.
  unfoldable pub regenerate_token : Option (List ℕ) → Outcomes → Text → State → Answer
  unfolding encode_hex commit rewrite_uci
  regenerate_token none o name st = record { reply = no_random; state = st; effects = [] }
  regenerate_token (some bytes) o name st =
      let token = encode_hex bytes in
      let config = st.manager.config in
      commit o name (rewrite_uci st.manager.source (token_update token ∷ []))
        (record config { token = token }) (audits (codes "regenerate_token") ∷ []) st

  pub data Request : Type 0 where
    updates : Update num → ℕ → Outcomes → Request
    regenerates : Option (List ℕ) → Outcomes → Request

  -- Requests one after the other, which the lock of the manager sees to.
  module _ (new_name : Files → Text) where
    unfoldable pub serve : Request → State → Answer
    unfolding update regenerate_token
    serve (updates u now o) st = update u now o (new_name st.disk.now) st
    serve (regenerates bytes o) st = regenerate_token bytes o (new_name st.disk.now) st

    unfoldable pub serve_all : List Request → State → State
    unfolding serve
    serve_all [] st = st
    serve_all (r ∷ rs) st = serve_all rs (serve r st).state
