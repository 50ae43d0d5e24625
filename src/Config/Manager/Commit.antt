-- ===== src/Config/Manager/Commit.antt =====
-- What an update does on each of its branches.
use openwrt_starwatch.Base.{ℕ, ◌≡◌, Bool, ◌&&◌, List, [], ◌∷◌, none, some, if◌then◌else◌, arith}
use openwrt_starwatch.Base.Maps.{lookup}
use openwrt_starwatch.Base.Strings.{Text, text_eq}
use openwrt_starwatch.Base.Text.{codes}
use openwrt_starwatch.Config.Uci.{OptionValue}
use openwrt_starwatch.Config.Rewrite.{rewrite_uci}
use openwrt_starwatch.Config.Atomic.{Outcomes, replaces, durable}
use openwrt_starwatch.Config.Atomic.After.{write_reply, file_after}
use openwrt_starwatch.Config.Settings.{Numbers, Config, Update}
use openwrt_starwatch.Config.Change.{done}
use openwrt_starwatch.Config.Apply.{apply_update}
use openwrt_starwatch.Config.Manager.{
  State, Effect, applies, audits, accepted, not_written, commit, update,
}

module _ (num : Numbers) (o : Outcomes) (name : Text) (st : State num) (old : Text)
    (fresh : lookup name st.disk.now ≡ none)
    (exists : lookup st.manager.path st.disk.now ≡ some old) where
  abbrev succeeds : Bool
  succeeds = replaces o && durable o

  commit_lem :
      (source : Text) (config : Config num) (effects : List (Effect num))
      → ((commit num o name source config effects st).reply
          ≡ (if succeeds then accepted else not_written))
        × ((commit num o name source config effects st).state.manager ≡ (
            if succeeds
            then record { path = st.manager.path; source = source; config = config }
            else st.manager))
        × ((commit num o name source config effects st).effects
            ≡ (if succeeds then effects else []))
        × (lookup st.manager.path (commit num o name source config effects st).state.disk.now
            ≡ some (if replaces o then source else old))
  unfolding commit
  commit_lem source config effects = ground (
    arith,
    write_reply o name st.manager.path source old st.disk fresh exists,
    file_after o name st.manager.path source old st.disk fresh exists,
  )

  -- An update that passes its checks is answered by whether all calls of the write succeed. Only then are
  -- the configuration and the source in memory replaced, and the configuration applied and audited. The
  -- file, of whatever text before, has the rewritten source where the calls up to the rename succeed, and is
  -- unchanged elsewhere. The file exists before, and the temporary file's name is not in use.
  pub update_lem :
      (u : Update num) (now : ℕ) (candidate : Config num) (changes : List OptionValue)
      → apply_update num u now st.manager.config ≡ done (candidate, changes)
      → ((update num u now o name st).reply ≡ (if succeeds then accepted else not_written))
        × ((update num u now o name st).state.manager ≡ (
            if succeeds
            then record {
              path = st.manager.path;
              source = rewrite_uci st.manager.source changes;
              config = candidate;
            }
            else st.manager))
        × ((update num u now o name st).effects
            ≡ (if succeeds then applies candidate ∷ audits (codes "update") ∷ [] else []))
        × (lookup st.manager.path (update num u now o name st).state.disk.now
            ≡ some (if replaces o then rewrite_uci st.manager.source changes else old))
  unfolding update
  update_lem u now candidate changes e = ground (
    arith,
    e,
    commit_lem (rewrite_uci st.manager.source changes) candidate
        (applies candidate ∷ audits (codes "update") ∷ []),
  )
