-- ===== src/Extension/Trigger/Stale.antt =====
-- pkg/download/extension.go: the handlers of one extension at the scripts of another.
use text.Mathlib.TextEquality.{eq_iff}
use gopeed_torbox.Base.{
  ℕ, ◌≡◌, refl, Bool, true, false, Option, none, List, [], ◌∷◌, lookup, insert,
}
use gopeed_torbox.Util.Match.{Url}
use gopeed_torbox.Extension.Manifest.{Script, Extension}
use gopeed_torbox.Extension.Trigger.{
  ActivationEvent, event_name, Matched, Engine, read, script_match, run_script, each_script,
  each_extension, do_trigger, with_script_file, after_inject, after_run, register_all,
}
use gopeed_torbox.Extension.Trigger.Order.{triggered}

module _ (match_string : List ℕ → List ℕ → Bool) (parse : List ℕ → Option Url)
    {V Handler Ctx E R : Type 0} (engine : Engine V Handler Ctx E) (request_of : Ctx → Matched)
    (handler : Extension V → Ctx → R → Ctx × R) (event : ActivationEvent) where
  -- An enabled extension with one script, which matches any request, can be read and injected into, and
  -- registers these handlers.
  pub record Registers (e : Extension V) (s : Script) (fns : List (ActivationEvent × Handler))
      : Type 0 where
    pub enabled : e.disabled ≡ false
    pub single : e.scripts ≡ s ∷ []
    pub matches : (r : Matched) → script_match match_string parse s event r ≡ true
    pub readable : engine.file e s ≡ read
    pub injected : engine.inject e ≡ none
    pub ran : engine.run_string e s ≡ (fns, none)

  -- Two enabled extensions have one script each that matches any request and can be run. If the
  -- first registers a handler that changes the context, and the second registers none, then the
  -- handler of the first is called twice, provided that the caller's function leaves the context.
  pub triggered-stale :
      {M : Type 0} (assert_error : E → Option M) (a b : Extension V) (s t : Script) (fn : Handler)
      (act : Ctx → Ctx) (ctx : Ctx) (result : R)
      → Registers a s ((event, fn) ∷ [])
      → Registers b t []
      → ((c : Ctx) → engine.call_function fn c ≡ (act c, none))
      → ((e : Extension V) (c : Ctx) (r : R) → handler e c r ≡ (c, r))
      → (triggered match_string parse engine request_of handler event assert_error
          (a ∷ b ∷ [])
          ctx
          result).1.ctx
        ≡ act (act ctx)
  unfolding do_trigger each_extension each_script run_script with_script_file after_inject after_run
      register_all lookup insert
  triggered-stale assert_error a b s t fn act ctx result h k calls nothing = simp (
    h.enabled,
    h.single,
    h.matches,
    h.readable,
    h.injected,
    h.ran,
    k.enabled,
    k.single,
    k.matches,
    k.readable,
    k.injected,
    k.ran,
    calls,
    nothing,
    (eq_iff (event_name event) (event_name event)).1 refl,
  )
