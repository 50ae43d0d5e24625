-- ===== src/Bus/Tests.antt =====
-- Runs of the bus on concrete inputs, and the bus's theorems at such inputs.
use openwrt_starwatch.Base.{ℕ, ◌≡◌, refl, true, List, [], ◌∷◌, some, arith, not, ◌&&◌}
use openwrt_starwatch.Base.Int.{pos}
use openwrt_starwatch.Base.Maps.{lookup, insert, contains, remove, nat_eq, ◌==◌}
use openwrt_starwatch.Bus.{Bus, new_bus, subscribe, cancel, publish, receive, offer}
use openwrt_starwatch.Bus.Publish.{Offered, publish_lem}
use openwrt_starwatch.Bus.Valid.{IsValid, new_bus-IsValid, subscribe-IsValid}
use openwrt_starwatch.Bus.Cancel.{cancel_lem}
use openwrt_starwatch.Bus.Run.{Call, subscribing, publishing, cancelling, receiving, run, run_lem}

-- One subscriber with a buffer of one message.
one : Bus ℕ
unfolding subscribe new_bus
one = (subscribe (pos 0) new_bus).1

one-IsValid : IsValid one
unfolding one new_bus
one-IsValid = subscribe-IsValid (pos 0) new_bus (omega arith) new_bus-IsValid

abbrev script : List (Call ℕ)
script = subscribing (pos 1) ∷ publishing 5 ∷ publishing 6 ∷ cancelling 0 ∷ receiving 0 ∷ []

-- The second message finds the buffer full: the subscriber is dropped, and cancelling is harmless.
script_runs :
    run script new_bus
    ≡ some (record {
      next_id = 1;
      subscribers = [];
      channels = (0, record { capacity = 1; buffer = []; closed = true }) ∷ [];
      once_done = 0 ∷ [];
    })
unfolding new_bus subscribe publish offer cancel receive lookup insert contains remove
script_runs = refl

publish_lem_example : (b' : Bus ℕ) × (publish 5 one ≡ some b') × Offered 5 one.subscribers one b'
publish_lem_example = publish_lem 5 one one-IsValid.no_repeat one-IsValid.opened

cancel_lem_example :
    (b' : Bus ℕ) × (cancel 0 one ≡ some b')
    × IsValid b'
    × (b'.next_id ≡ one.next_id)
    × ((j : ℕ) → contains b'.subscribers j ≡ (not (0 == j) && contains one.subscribers j))
    × (cancel 0 b' ≡ some b')
unfolding one
cancel_lem_example = cancel_lem 0 one (omega arith) one-IsValid

run_lem_example : (b' : Bus ℕ) × (run script new_bus ≡ some b') × IsValid b'
run_lem_example = run_lem script (omega arith)
