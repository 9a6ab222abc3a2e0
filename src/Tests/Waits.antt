-- ===== src/Tests/Waits.antt =====
-- A check that a button is selected, which it is at the second look.
use auto_perf.Prelude.{ℕ, zero, suc, ◌≡◌, refl, true, false, some, none, Bool, Option, [], ◌∷◌, ◌*◌}
use auto_perf.Adapters.Lookup.{Dump, waits, attempts, unknown}
use auto_perf.Adapters.Polling.{poll, verify_playing, reading, verify_element_state, in_state}
use auto_perf.Adapters.States.{StateChecked, Looks, verify_element_state_exact}
use auto_perf.Prelude.Count.{select}
use auto_perf.UiAuto.{find_node, resolve, resolve_from, matches, smallest, strategy_of}
use auto_perf.Tests.Screens.{plain, button, search_icon}

abbrev seconds : ℕ → ℕ
seconds i = 3_000_000 * suc i

abbrev shown : ℕ → Bool
shown zero = false
shown (suc i) = true

abbrev device : ℕ → ℕ → Dump
device i attempt = record {
  nodes = record button { selected = shown i } ∷ [];
  spent = 1_000_000;
  lag = 0;
}

abbrev starts : ℕ → Option Bool
starts zero = none
starts (suc i) = some false

-- The button was not selected at first, and what cannot be read is no failure.
looks_twice :
    (verify_element_state plain search_icon
        (1080, 2340)
        waits
        device
        "selected"
        true
        4_000_000
        seconds
        2
      ≡ some (in_state "resource_id" (record { dumps = 2; resolve_budget_spent = false })))
    × (verify_playing starts 0 seconds 1 ≡ some unknown)
unfolding verify_element_state verify_playing poll reading attempts resolve resolve_from find_node
    select matches smallest strategy_of
looks_twice = (refl, refl)

verify_element_state_exact_example :
    StateChecked plain search_icon
      (1080, 2340)
      waits
      device
      "selected"
      true
      4_000_000
      seconds
      1
      (verify_element_state plain search_icon
        (1080, 2340)
        waits
        device
        "selected"
        true
        4_000_000
        seconds
        2)
    × ((i : ℕ) → Looks plain search_icon (1080, 2340) waits device "selected" true 2 i)
verify_element_state_exact_example =
    verify_element_state_exact plain search_icon (1080, 2340) waits device "selected" true 4_000_000
      seconds 1 2 refl refl
