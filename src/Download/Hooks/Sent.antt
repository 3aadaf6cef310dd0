-- ===== src/Download/Hooks/Sent.antt =====
-- pkg/download/webhook.go and script.go: which URLs and scripts are used.
use Prim.Native.String.{String}
use text.Mathlib.Text.{◌==◌ as str_eq}
use gopeed_torbox.Base.{
  ℕ, ◌≡◌, refl, ap, Bool, true, false, ◌&&◌, ◌||◌, Option, some, List, [], ◌∷◌, if◌then◌else◌,
  arith, map, Bool-cases, inl, inr,
}
use gopeed_torbox.Download.Hooks.{
  HookConfig, strings, non_empty, enabled_targets, get_webhook_urls, get_script_paths, HookEvent,
  trigger_webhooks, test_webhook_url, test_each, trigger_scripts,
}

-- Each URL but empty ones is answered with 200.
unfoldable pub all_succeed : (String → Option ℕ) → List String → Bool
unfolding test_webhook_url
all_succeed post [] = true
all_succeed post (u ∷ us) = (str_eq u "" || test_webhook_url post u) && all_succeed post us

non_empty_twice : (us : List String) → non_empty (non_empty us) ≡ non_empty us
unfolding non_empty
non_empty_twice [] = refl
non_empty_twice (u ∷ us) = elim (Bool-cases (str_eq u "")) [
  | inl q ↦ rw q (non_empty_twice us)
  | inr q ↦ rw (q, q) (ap (◌∷◌ u) (non_empty_twice us))
]

-- The scripts that are started are the paths that are not empty, if scripts are on.
trigger_scripts-targets :
    (c : HookConfig) → trigger_scripts (some c) ≡ (if c.enable then non_empty c.targets else [])
unfolding trigger_scripts get_script_paths enabled_targets non_empty
trigger_scripts-targets c = elim (Bool-cases c.enable) [
  | inl q ↦ rw q (non_empty_twice c.targets)
  | inr q ↦ rw q refl
]

-- With webhooks off, an event is still sent to each URL of the old configuration.
trigger_webhooks-off :
    (us targets : List String) (event : HookEvent)
    → trigger_webhooks (some (record { enable = false; targets = targets })) (strings us) event
      ≡ map (λ u. (u, event)) (non_empty us)
unfolding trigger_webhooks get_webhook_urls
trigger_webhooks-off us targets event = refl

test_each-all_succeed :
    (post : String → Option ℕ) (us : List String) → test_each post us ≡ all_succeed post us
unfolding test_each all_succeed
test_each-all_succeed post [] = refl
test_each-all_succeed post (u ∷ us) = ground (arith, test_each-all_succeed post us)
