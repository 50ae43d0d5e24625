-- ===== src/Config/Manager/Tests.antt =====
-- The manager at work, with numbers that are printed in unary, and the theorems about it there.
use openwrt_starwatch.Base.{
  ℕ, suc, ◌+◌, ◌≡◌, ◌≢◌, refl, ap, true, false, List, [], ◌∷◌, none, some, length, ltb, arith, inl,
  Bool-cases, inr, ◌⊎◌,
}
use openwrt_starwatch.Base.Int.{pos}
use openwrt_starwatch.Base.Maps.{lookup, insert, erase, nat_eq, ◌==◌}
use openwrt_starwatch.Base.Strings.{Text, text_eq, is_space, trim_right}
use openwrt_starwatch.Base.Text.{codes}
use openwrt_starwatch.Config.Uci.{Section, ok, OptionValue, parse_uci, find}
use openwrt_starwatch.Config.Rewrite.{rewrite_uci}
use openwrt_starwatch.Config.Rewrite.Success.{is_current}
use openwrt_starwatch.Config.Atomic.{Files, Outcomes, Disk, atomic_write}
use openwrt_starwatch.Config.Atomic.Crash.{
  AfterCrash, states, crash_leaves-OldOrNew, success_survives_crash,
}
use openwrt_starwatch.Config.Settings.{Config, Update, AlertRuleConfig, of_seconds}
use openwrt_starwatch.Config.Change.{done, main_section, alerts_section, option_value}
use openwrt_starwatch.Config.Apply.{apply_update}
use openwrt_starwatch.Config.Apply.Steps.Fixed.{
  restart_fields, rule_names, apply_update-restart_fields,
}
use openwrt_starwatch.Config.Apply.Steps.Clean.{WordChars-of}
use openwrt_starwatch.Config.Apply.Steps.Values.{WordNames}
use openwrt_starwatch.Config.Readers.{loaded, read_option}
use openwrt_starwatch.Config.Load.{defaults, load}
use openwrt_starwatch.Config.Load.Fields.{WholeFloats, IsValid}
use openwrt_starwatch.Config.Load.Valid.{load-IsValid}
use openwrt_starwatch.Config.Manager.{
  State, not_written, update, Request, updates, regenerates, serve_all,
}
use openwrt_starwatch.Config.Manager.Readable.{IsReadable, serve_all-IsReadable}
use openwrt_starwatch.Config.Manager.Commit.{update_lem}
use openwrt_starwatch.Config.Manager.Reload.{zero_hold, zero_hold_unloadable}
use openwrt_starwatch.Config.Manager.Unary.{ones, length-ones, unary, prints, reads}

abbrev file : Text
file = codes "config starwatch main\n\toption port +1\nconfig alerts\n"

abbrev parsed : List Section
parsed =
    record {
      key = (codes "starwatch", codes "main");
      options = (codes "port", codes "+1") ∷ [];
      lists = [];
    }
    ∷ record { key = (codes "alerts", []); options = []; lists = [] }
    ∷ []

parse_file : parse_uci file ≡ ok parsed
unfolding parse_uci trim_right is_space
parse_file = refl

abbrev outage_rule : AlertRuleConfig unary
outage_rule = record {
  enabled = true;
  threshold = 0;
  threshold2 = 0;
  hold = pos 30;
  clear_hold = pos 0;
}

abbrev config : Config unary
config =
    let c = defaults unary in
    record c {
      alerts = record {
        webhook_url = [];
        ntfy_url = [];
        rules = (codes "outage_started", outage_rule) ∷ [];
      };
    }

words : WordNames config.alerts.rules
unfolding is_space
words = (WordChars-of (codes "outage_started") refl, tt)

abbrev path : Text
path = codes "/etc/config/starwatch"

abbrev disk : Disk
disk = record { now = (path, file) ∷ []; unsynced = λ q. false; recent = []; passed = [] }

abbrev state : State unary
state = record { manager = record { path = path; source = file; config = config }; disk = disk }

abbrev all_done : Outcomes
all_done = record {
  created = true;
  chmod_done = true;
  written = true;
  partial = [];
  synced = true;
  closed = true;
  renamed = true;
  directory_opened = true;
  directory_synced = true;
  directory_closed = true;
  removed = true;
}

abbrev not_synced : Outcomes
not_synced = record all_done { directory_synced = false }

abbrev temporary : Text
temporary = codes "/etc/config/.starwatch-1"

fresh : lookup temporary disk.now ≡ none
unfolding lookup
fresh = refl

exists : lookup path disk.now ≡ some file
unfolding lookup
exists = refl

-- The text that the crash finds is the new one, and the directory is not synced.
crash_leaves-OldOrNew_example :
    AfterCrash path (states disk) (some (codes "new")) ⊎ (some (codes "new") ≡ some (codes "new"))
unfolding atomic_write lookup insert erase
crash_leaves-OldOrNew_example =
    crash_leaves-OldOrNew not_synced temporary path (codes "new") disk (some (codes "new")) refl
      (inl (inr refl))

success_survives_crash_example : some (codes "new") ≡ some (codes "new")
unfolding atomic_write lookup insert erase
success_survives_crash_example =
    success_survives_crash all_done temporary path (codes "new") disk (some (codes "new")) refl refl
      (inl (inr refl))

abbrev slower : Update unary
slower = record {
  main = some (record {
    listen = none;
    port = none;
    token = none;
    dish_addr = none;
    poll_status = none;
    poll_map = some (pos 2);
    wan_interface = none;
    probe_hosts = none;
    probe_interval = none;
    location_enabled = none;
  });
  history = none;
  alerts = none;
  battery = none;
}

abbrev slower_config : Config unary
slower_config = record config { poll_map = pos 2000000000 }

abbrev slower_changes : List OptionValue
slower_changes = option_value main_section (codes "poll_map") (codes "+11")

applied : apply_update unary slower 0 config ≡ done (slower_config, slower_changes)
unfolding apply_update of_seconds
applied = refl

apply_update-restart_fields_example :
    (restart_fields unary slower_config ≡ restart_fields unary config)
    × (rule_names unary slower_config ≡ rule_names unary config)
apply_update-restart_fields_example =
    apply_update-restart_fields unary slower 0 config slower_config slower_changes applied

update_lem_example :
    ((update unary slower 0 not_synced temporary state).reply ≡ not_written)
    × ((update unary slower 0 not_synced temporary state).state.manager ≡ state.manager)
    × ((update unary slower 0 not_synced temporary state).effects ≡ [])
    × (lookup path (update unary slower 0 not_synced temporary state).state.disk.now
        ≡ some (rewrite_uci file slower_changes))
update_lem_example =
    update_lem unary not_synced temporary state file fresh exists slower 0 slower_config
      slower_changes applied

-- A name that is longer than the names in use.
abbrev total : Files → ℕ
total [] = 0
total ((key, content) ∷ files) = length key + total files

lookup-longer : (n : ℕ) (files : Files) → ltb (total files) n ≡ true → lookup (ones n) files ≡ none
unfolding lookup
lookup-longer n [] h = refl
lookup-longer n ((key, content) ∷ files) h = elim (Bool-cases (key == ones n)) [
  | inl same ↦
      absurd (ground (arith, h, ap length ((text_eq.test_iff key (ones n)).0 same), length-ones n))
  | inr differs ↦ ground (arith, differs, lookup-longer n files (ground (arith, h)))
]

abbrev new_name : Files → Text
new_name files = ones (suc (total files))

is_new : (files : Files) → lookup (new_name files) files ≡ none
is_new files = lookup-longer (suc (total files)) files (ground arith)

abbrev requests : List (Request unary)
requests =
    updates slower 0 not_synced
    ∷ regenerates (some (171 ∷ 7 ∷ [])) all_done
    ∷ updates slower 1 (record all_done { written = false })
    ∷ []

readable : IsReadable unary prints state
readable = record {
  source_parses = (parsed, parse_file);
  on_disk = file;
  stored = exists;
  disk_parses = (parsed, parse_file);
  names = words;
}

serve_all-IsReadable_example : IsReadable unary prints (serve_all unary new_name requests state)
serve_all-IsReadable_example =
    serve_all-IsReadable unary prints new_name is_new requests state (tt, (tt, (tt, tt))) readable

alerts_found : is_current (find alerts_section parsed) ≡ true
unfolding find
alerts_found = refl

has_rule : lookup (codes "outage_started") config.alerts.rules ≡ some outage_rule
unfolding lookup
has_rule = refl

zero_hold_unloadable_example :
    (new : Config unary) × (changes : List OptionValue) × (apply_update unary
        (zero_hold unary)
        0
        config
      ≡ done (new, changes))
    × (load unary (rewrite_uci file changes) ≢ loaded config)
zero_hold_unloadable_example =
    zero_hold_unloadable unary reads prints 0 config config outage_rule file parsed words has_rule
      parse_file alerts_found

whole : WholeFloats unary
whole = record { lt_of_ℕ = λ a b h k. refl; finite_of_ℕ = λ a h. refl }

abbrev loaded_config : Config unary
loaded_config = let c = defaults unary in record c { port = pos 1 }

loads : load unary (codes "config starwatch main\n\toption port +1") ≡ loaded loaded_config
unfolding load trim_right is_space find read_option of_seconds
loads = refl

load-IsValid_example : IsValid unary loaded_config
load-IsValid_example =
    load-IsValid unary whole (codes "config starwatch main\n\toption port +1") loaded_config loads
