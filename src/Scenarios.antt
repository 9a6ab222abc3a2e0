-- ===== src/Scenarios.antt =====
-- src/autoperf/scenarios/youtube.py: the registry of presets, by name and tier. What a preset does on
-- the screen is not modelled.
use Prim.Native.String.{compare}
use Prim.Native.Nat.{Ordering}
use auto_perf.Prelude.{String, Bool, true, Option, none, some, List, [], ◌∷◌, map, ◌==◌}
use auto_perf.Prelude.Count.{select}

pub record ScenarioPreset : Type 0 where
  pub name : String
  pub tier : String

-- TIERS
abbrev pub tiers : List String
tiers = "smoke" ∷ "functional" ∷ "regression" ∷ []

abbrev preset : String → String → ScenarioPreset
preset tier name = record { name = name; tier = tier }

-- REGISTRY
unfoldable pub registry : List ScenarioPreset
registry =
    preset "smoke" "device_settings_scroll"
    ∷ preset "smoke" "cold_start"
    ∷ preset "smoke" "cold_start_and_stop"
    ∷ preset "smoke" "search_and_play"
    ∷ preset "smoke" "home_feed_scroll"
    ∷ preset "functional" "home_feed_tap_video"
    ∷ preset "functional" "like_video"
    ∷ preset "functional" "shorts_browsing"
    ∷ preset "functional" "shorts_like_and_next"
    ∷ preset "functional" "subscriptions_feed_browse"
    ∷ preset "functional" "library_and_downloads_browse"
    ∷ preset "functional" "comment_scroll"
    ∷ preset "functional" "fullscreen_toggle_cycle"
    ∷ preset "regression" "quality_switch_manual"
    ∷ preset "regression" "seek_scrub_forward"
    ∷ preset "regression" "seek_long_press_skip"
    ∷ preset "regression" "background_foreground_resume"
    ∷ preset "regression" "app_switch_cycle"
    ∷ preset "regression" "pip_minimize"
    ∷ preset "regression" "multi_video_session"
    ∷ preset "regression" "play_golden"
    ∷ preset "regression" "play_baby_groot_dancing"
    ∷ preset "regression" "play_suis_moi"
    ∷ preset "regression" "play_rickroll"
    ∷ []

-- Python's `sorted` on texts, which go by their code points
unfoldable pub insert : String → List String → List String
insert s [] = s ∷ []
insert s (t ∷ ts) =
    let later = t ∷ insert s ts in elim (compare s t) [ Ordering.gt ↦ later | _ ↦ s ∷ (t ∷ ts) ]

unfoldable pub sorted : List String → List String
unfolding insert
sorted [] = []
sorted (s ∷ ss) = insert s (sorted ss)

-- `tier is None or preset.tier == tier`
abbrev in_tier : Option String → ScenarioPreset → Bool
in_tier none p = true
in_tier (some tier) p = p.tier == tier

unfoldable pub list_scenarios : Option String → List String
unfolding registry sorted
list_scenarios tier = sorted (map (λ p. p.name) (select (in_tier tier) registry))
