-- ===== src/Download/Hooks.antt =====
-- pkg/download/webhook.go and script.go: what is told to web servers and scripts when a download ends. The
-- answers of servers, and what the operating system does with a command, are parameters.
pub mod Sent
use Prim.Native.String.{String, ◌++◌ as text_append}
use text.Mathlib.Text.{◌==◌ as str_eq}
use gopeed_torbox.Base.{
  ℕ, Bool, true, false, not, ◌&&◌, ◌||◌, Option, none, some, List, [], ◌∷◌, ◌++◌, ◌==◌,
  if◌then◌else◌, map,
}

-- `WebhookConfig` and `ScriptConfig`: whether they are on, and the URLs or paths.
pub record HookConfig : Type 0 where
  pub enable : Bool
  pub targets : List String

-- The entry `webhookUrls` of the old configuration: none, a list of strings, a list of values of which some
-- are strings, or another value.
pub data LegacyUrls : Type 0 where
  no_entry other_value : LegacyUrls
  strings : List String → LegacyUrls
  values : List (Option String) → LegacyUrls

unfoldable pub non_empty : List String → List String
non_empty [] = []
non_empty (u ∷ us) = let rest = non_empty us in if str_eq u "" then rest else u ∷ rest

unfoldable pub string_values : List (Option String) → List String
string_values [] = []
string_values (none ∷ vs) = string_values vs
string_values (some u ∷ vs) = let rest = string_values vs in if str_eq u "" then rest else u ∷ rest

abbrev pub is_empty_list {ℓ} : {A : Type ℓ} → List A → Bool
is_empty_list [] = true
is_empty_list (x ∷ xs) = false

abbrev pub legacy_urls : LegacyUrls → List String
unfolding string_values
legacy_urls no_entry = []
legacy_urls other_value = []
legacy_urls (strings us) = us
legacy_urls (values vs) = string_values vs

abbrev pub enabled_targets : Option HookConfig → List String
unfolding non_empty
enabled_targets none = []
enabled_targets (some c) = if c.enable then non_empty c.targets else []

-- A nil list is an empty one here.
unfoldable pub get_webhook_urls : Option HookConfig → LegacyUrls → List String
unfolding enabled_targets legacy_urls
get_webhook_urls cfg legacy =
    let urls = enabled_targets cfg in if is_empty_list urls then legacy_urls legacy else urls

unfoldable pub get_script_paths : Option HookConfig → List String
unfolding enabled_targets
get_script_paths cfg = enabled_targets cfg

pub data HookEvent : Type 0 where
  download_done download_error : HookEvent

abbrev pub event_text : HookEvent → String
event_text download_done = "DOWNLOAD_DONE"
event_text download_error = "DOWNLOAD_ERROR"

-- `triggerWebhooks` and `sendWebhooks`: the URLs to which the event is sent, each by a goroutine.
unfoldable pub trigger_webhooks :
    Option HookConfig → LegacyUrls → HookEvent → List (String × HookEvent)
unfolding get_webhook_urls non_empty
trigger_webhooks cfg legacy event = map (λ u. (u, event)) (non_empty (get_webhook_urls cfg legacy))

-- `sendWebhookToUrl`: the status, or `none` for an error. `post` is the request.
unfoldable pub send_webhook_to_url : (String → Option ℕ) → String → Option ℕ
send_webhook_to_url post url = if str_eq url "" then none else post url

-- Whether there is no error.
unfoldable pub test_webhook_url : (String → Option ℕ) → String → Bool
unfolding send_webhook_to_url
test_webhook_url post url = elim (send_webhook_to_url post url) [
  | none ↦ false
  | some status ↦ status == 200
]

unfoldable pub test_each : (String → Option ℕ) → List String → Bool
unfolding test_webhook_url
test_each post [] = true
test_each post (u ∷ us) =
    let rest = test_each post us in
    if str_eq u "" then rest else if test_webhook_url post u then rest else false

unfoldable pub send_test_webhook : (String → Option ℕ) → Option HookConfig → LegacyUrls → Bool
unfolding test_each get_webhook_urls
send_test_webhook post cfg legacy = test_each post (get_webhook_urls cfg legacy)

-- The command for a script by its extension; `none` is an error.
unfoldable pub script_command : Bool → String → String → Option (List String)
script_command windows ext path =
    if str_eq ext ".sh" || str_eq ext ".bash"
    then some ("bash" ∷ path ∷ [])
    else if str_eq ext ".py"
    then some ("python3" ∷ path ∷ [])
    else if str_eq ext ".js"
    then some ("node" ∷ path ∷ [])
    else if str_eq ext ".bat" || str_eq ext ".cmd"
    then if windows then some ("cmd" ∷ "/c" ∷ path ∷ []) else none
    else if str_eq ext ".ps1"
    then some (
        if windows
        then "powershell" ∷ "-ExecutionPolicy" ∷ "Bypass" ∷ "-File" ∷ path ∷ []
        else "pwsh" ∷ "-File" ∷ path ∷ [])
    else some (path ∷ [])

-- What a script is told of a task; `path` is `none` without a resource.
pub record ScriptTask : Type 0 where
  pub id : String
  pub name : String
  pub status : String
  pub path : Option String

abbrev pub path_variable : Option String → List String
path_variable none = []
path_variable (some path) = text_append "GOPEED_TASK_PATH=" path ∷ []

unfoldable pub script_variables : HookEvent → ScriptTask → List String
script_variables event t =
    text_append "GOPEED_EVENT=" (event_text event)
    ∷ text_append "GOPEED_TASK_ID=" t.id
    ∷ text_append "GOPEED_TASK_NAME=" t.name
    ∷ text_append "GOPEED_TASK_STATUS=" t.status
    ∷ path_variable t.path

-- `executeScriptAtPath`: the command and the variables added to the environment. `exists` is whether
-- there may be a file, and `ext` is `filepath.Ext`.
unfoldable pub execute_script_at_path :
    (String → Bool)
    → (String → String)
    → Bool
    → HookEvent
    → ScriptTask
    → String
    → Option (List String × List String)
unfolding script_command script_variables
execute_script_at_path exists ext windows event t path =
    if str_eq path "" || not (exists path)
    then none
    else elim (script_command windows (ext path) path) [
      | none ↦ none
      | some command ↦ some (command, script_variables event t)
    ]

-- `triggerScripts` and `executeScripts`: the scripts that are started, each by a goroutine.
unfoldable pub trigger_scripts : Option HookConfig → List String
unfolding get_script_paths non_empty
trigger_scripts cfg = non_empty (get_script_paths cfg)
