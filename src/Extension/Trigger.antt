-- ===== src/Extension/Trigger.antt =====
-- pkg/download/extension.go: `doTrigger`, which runs the scripts of extensions at an event. The script engine
-- and the files are parameters. A script can change the request, so each match is with the request as it
-- is then.
pub mod Order
pub mod Stale
use Prim.Native.String.{String}
use text.Mathlib.Text.{◌==◌ as str_eq}
use gopeed_torbox.Base.{
  ℕ, Bool, true, false, not, ◌&&◌, ◌||◌, Option, none, some, List, [], ◌∷◌, if◌then◌else◌, Assoc,
  lookup, insert,
}
use gopeed_torbox.Util.Match.{Url, match_url}
use gopeed_torbox.Extension.Manifest.{Rules, Script, Extension}

pub data ActivationEvent : Type 0 where
  on_resolve on_start on_error on_done : ActivationEvent

abbrev pub event_name : ActivationEvent → String
event_name on_resolve = "onResolve"
event_name on_start = "onStart"
event_name on_error = "onError"
event_name on_done = "onDone"

-- What scripts are matched with. A nil map of labels and an empty one are the same here.
pub record Matched : Type 0 where
  pub url : List ℕ
  pub labels : Assoc String

-- How the file of a script is read: there is none, another error, or it is read.
pub data FileRead (E : Type 0) : Type 0 where
  missing unreadable : E → FileRead E
  read : FileRead E

-- The engine: `inject` and `run_string` for the script of an extension, with the handlers that it
-- registers, and `call_function`, which can change the context. `none` is no error.
pub record Engine (V Handler Ctx E : Type 0) : Type 0 where
  pub file : Extension V → Script → FileRead E
  pub inject : Extension V → Option E
  pub run_string : Extension V → Script → List (ActivationEvent × Handler) × Option E
  pub call_function : Handler → Ctx → Ctx × Option E

abbrev pub is_some {ℓ} : {A : Type ℓ} → Option A → Bool
is_some none = false
is_some (some a) = true

module _ (match_string : List ℕ → List ℕ → Bool) (parse : List ℕ → Option Url) where
  unfoldable pub any_url : List (List ℕ) → List ℕ → Bool
  unfolding match_url
  any_url [] u = false
  any_url (p ∷ ps) u = match_url match_string parse p u || any_url ps u

  unfoldable pub any_label : List String → Assoc String → Bool
  any_label [] labels = false
  any_label (l ∷ ls) labels = is_some (lookup l labels) || any_label ls labels

  abbrev pub match_rules : Option Rules → Matched → Bool
  unfolding any_url any_label
  match_rules none r = false
  match_rules (some rules) r = any_url rules.urls r.url || any_label rules.labels r.labels

  unfoldable pub script_match : Script → ActivationEvent → Matched → Bool
  unfolding match_rules
  script_match s event r =
      not (str_eq s.event "") && (str_eq s.event (event_name event) && match_rules s.rules r)

-- The variables of `doTrigger`: `error` is `err`, and `result` what the handler of the caller has set.
pub record Fired (Handler Ctx E R : Type 0) : Type 0 where
  pub error : Option E
  pub events : Assoc Handler
  pub ctx : Ctx
  pub result : R

abbrev pub first_fired : {Handler Ctx E R : Type 0} → Ctx → R → Fired Handler Ctx E R
first_fired ctx result = record { error = none; events = []; ctx = ctx; result = result }

-- `gojautil.AssertError`; `none` stands for nil.
abbrev pub message_of : {E M : Type 0} → (E → Option M) → Option E → Option M
message_of assert_error none = none
message_of assert_error (some err) = assert_error err

-- `is_match` is `script_match` with its first two arguments, and `handler` the caller's function.
module _ {V Handler Ctx E R : Type 0} (engine : Engine V Handler Ctx E)
    (is_match : Script → ActivationEvent → Matched → Bool) (request_of : Ctx → Matched)
    (handler : Extension V → Ctx → R → Ctx × R) (event : ActivationEvent) where
  unfoldable pub register_all : List (ActivationEvent × Handler) → Assoc Handler → Assoc Handler
  register_all [] events = events
  register_all ((name, fn) ∷ fns) events = register_all fns (insert (event_name name) fn events)

  abbrev pub after_call :
      Extension V → Ctx × Option E → Fired Handler Ctx E R → Fired Handler Ctx E R
  after_call e (ctx, some err) f = record f { error = some err; ctx = ctx }
  after_call e (ctx, none) f =
      let (new, result) = handler e ctx f.result in
      record f { error = none; ctx = new; result = result }

  abbrev pub call_registered :
      Extension V → Option Handler → Fired Handler Ctx E R → Fired Handler Ctx E R
  call_registered e none f = record f { error = none }
  call_registered e (some fn) f = after_call e (engine.call_function fn f.ctx) f

  abbrev pub after_run :
      Extension V
      → List (ActivationEvent × Handler) × Option E
      → Fired Handler Ctx E R
      → Fired Handler Ctx E R
  unfolding register_all
  after_run e (fns, some err) f = record f { error = some err; events = register_all fns f.events }
  after_run e (fns, none) f =
      let events = register_all fns f.events in
      call_registered e (lookup (event_name event) events) (record f { events = events })

  abbrev pub after_inject :
      Extension V → Script → Option E → Fired Handler Ctx E R → Fired Handler Ctx E R
  unfolding after_run
  after_inject e s (some err) f = record f { error = some err }
  after_inject e s none f = after_run e (engine.run_string e s) f

  abbrev pub with_script_file :
      Extension V → Script → FileRead E → Fired Handler Ctx E R → Fired Handler Ctx E R
  unfolding after_inject
  with_script_file e s (missing err) f = record f { error = some err }
  with_script_file e s (unreadable err) f = record f { error = some err }
  with_script_file e s read f = after_inject e s (engine.inject e) f

  -- The body of the inner loop.
  unfoldable pub run_script : Extension V → Script → Fired Handler Ctx E R → Fired Handler Ctx E R
  unfolding with_script_file
  run_script e s f =
      if is_match s event (request_of f.ctx) then with_script_file e s (engine.file e s) f else f

  unfoldable pub each_script :
      Extension V → List Script → Fired Handler Ctx E R → Fired Handler Ctx E R
  unfolding run_script
  each_script e [] f = f
  each_script e (s ∷ ss) f = each_script e ss (run_script e s f)

  unfoldable pub each_extension : List (Extension V) → Fired Handler Ctx E R → Fired Handler Ctx E R
  unfolding each_script
  each_extension [] f = f
  each_extension (e ∷ es) f =
      each_extension es (if e.disabled then f else each_script e e.scripts f)

  -- The error that is returned, and the variables at the end. `assert_error` picks the errors that are
  -- messages.
  unfoldable pub do_trigger :
      {M : Type 0}
      → (E → Option M)
      → List (Extension V)
      → Ctx
      → R
      → Option M × Fired Handler Ctx E R
  unfolding each_extension
  do_trigger assert_error es ctx result =
      let f = each_extension es (first_fired ctx result) in (message_of assert_error f.error, f)
