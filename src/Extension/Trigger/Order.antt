-- ===== src/Extension/Trigger/Order.antt =====
-- pkg/download/extension.go: which extensions take part in an event, and what their order does to errors and
-- handlers.
use text.Mathlib.Text.{◌==◌ as str_eq}
use gopeed_torbox.Base.{
  ℕ, ◌≡◌, refl, ap, Bool, true, false, not, ◌&&◌, ◌||◌, Option, none, some, List, [], ◌∷◌, ◌++◌,
  if◌then◌else◌, arith, Bool-cases, inl, inr,
}
use gopeed_torbox.Util.Match.{Url}
use gopeed_torbox.Extension.Manifest.{Script, Extension}
use gopeed_torbox.Extension.Trigger.{
  ActivationEvent, event_name, Matched, Engine, read, script_match, Fired, run_script, each_script,
  each_extension, do_trigger, first_fired, with_script_file, after_inject, after_run,
  call_registered, after_call, message_of,
}

module _ (match_string : List ℕ → List ℕ → Bool) (parse : List ℕ → Option Url)
    {V Handler Ctx E R : Type 0} (engine : Engine V Handler Ctx E) (request_of : Ctx → Matched)
    (handler : Extension V → Ctx → R → Ctx × R) (event : ActivationEvent) where
  abbrev scripts_run : Extension V → List Script → Fired Handler Ctx E R → Fired Handler Ctx E R
  scripts_run = each_script engine (script_match match_string parse) request_of handler event

  abbrev extensions_run : List (Extension V) → Fired Handler Ctx E R → Fired Handler Ctx E R
  extensions_run = each_extension engine (script_match match_string parse) request_of handler event

  abbrev pub triggered :
      {M : Type 0}
      → (E → Option M)
      → List (Extension V)
      → Ctx
      → R
      → Option M × Fired Handler Ctx E R
  unfolding do_trigger
  triggered = do_trigger engine (script_match match_string parse) request_of handler event

  -- A script for the event.
  unfoldable pub has_event : List Script → Bool
  has_event [] = false
  has_event (s ∷ ss) = str_eq s.event (event_name event) || has_event ss

  -- The extensions that are enabled and have a script for the event.
  unfoldable pub concerned : List (Extension V) → List (Extension V)
  unfolding has_event
  concerned [] = []
  concerned (e ∷ es) =
      let rest = concerned es in if not e.disabled && has_event e.scripts then e ∷ rest else rest

  script_match-other :
      (s : Script) (r : Matched)
      → str_eq s.event (event_name event) ≡ false
      → script_match match_string parse s event r ≡ false
  unfolding script_match
  script_match-other s r h = ground (arith, h)

  scripts_run-other :
      (e : Extension V) (ss : List Script) (f : Fired Handler Ctx E R)
      → has_event ss ≡ false
      → scripts_run e ss f ≡ f
  unfolding each_script has_event run_script
  scripts_run-other e [] f h = refl
  scripts_run-other e (s ∷ ss) f h =
      let other : str_eq s.event (event_name event) ≡ false = ground (arith, h) in
      let later : has_event ss ≡ false = ground (arith, h) in
      rw (script_match-other s (request_of f.ctx) other) (scripts_run-other e ss f later)

  extensions_run-concerned :
      (es : List (Extension V)) (f : Fired Handler Ctx E R)
      → extensions_run es f ≡ extensions_run (concerned es) f
  unfolding each_extension concerned
  extensions_run-concerned [] f = refl
  extensions_run-concerned (e ∷ es) f = elim (Bool-cases e.disabled) [
    | inl q ↦ simp q (extensions_run-concerned es f)
    | inr q ↦ elim (Bool-cases (has_event e.scripts)) [
      | inl p ↦ simp (q, p) (extensions_run-concerned es (scripts_run e e.scripts f))
      | inr p ↦ simp (q, p, scripts_run-other e e.scripts f p) (extensions_run-concerned es f)
    ]
  ]

  -- An event has the effects that it has if only the extensions are installed that are enabled and
  -- have a script for the event, in their order.
  pub triggered-concerned :
      {M : Type 0} (assert_error : E → Option M) (es : List (Extension V)) (ctx : Ctx) (result : R)
      → triggered assert_error es ctx result ≡ triggered assert_error (concerned es) ctx result
  unfolding do_trigger
  triggered-concerned assert_error es ctx result =
      ap (λ (f : Fired Handler Ctx E R). (message_of assert_error f.error, f))
        (extensions_run-concerned es (first_fired ctx result))

  scripts_run-append :
      (e : Extension V) (ss ts : List Script) (f : Fired Handler Ctx E R)
      → scripts_run e (ss ++ ts) f ≡ scripts_run e ts (scripts_run e ss f)
  unfolding each_script
  scripts_run-append e [] ts f = refl
  scripts_run-append e (s ∷ ss) ts f =
      scripts_run-append e ss ts
        (run_script engine (script_match match_string parse) request_of handler event e s f)

  extensions_run-append :
      (es ds : List (Extension V)) (f : Fired Handler Ctx E R)
      → extensions_run (es ++ ds) f ≡ extensions_run ds (extensions_run es f)
  unfolding each_extension
  extensions_run-append [] ds f = refl
  extensions_run-append (e ∷ es) ds f =
      extensions_run-append es ds (if e.disabled then f else scripts_run e e.scripts f)

  -- A script of an extension that matches any request, can be read and injected into, and ends without
  -- an error, as does every handler.
  pub record Succeeds (e : Extension V) (s : Script) : Type 0 where
    pub matches : (r : Matched) → script_match match_string parse s event r ≡ true
    pub readable : engine.file e s ≡ read
    pub injected : engine.inject e ≡ none
    pub ran : (engine.run_string e s).1 ≡ none
    pub called : (fn : Handler) (ctx : Ctx) → (engine.call_function fn ctx).1 ≡ none

  error-after_call :
      (e : Extension V) (p : Ctx × Option E) (f : Fired Handler Ctx E R)
      → p.1 ≡ none
      → (after_call engine (script_match match_string parse) request_of handler event e p f).error
        ≡ none
  error-after_call e (ctx, some err) f h = cc
  error-after_call e (ctx, none) f h = refl

  error-call_registered :
      (e : Extension V) (s : Script) (o : Option Handler) (f : Fired Handler Ctx E R)
      → Succeeds e s
      → (call_registered engine
          (script_match match_string parse)
          request_of
          handler
          event
          e
          o
          f).error
        ≡ none
  error-call_registered e s none f h = refl
  error-call_registered e s (some fn) f h =
      error-after_call e (engine.call_function fn f.ctx) f (h.called fn f.ctx)

  error-after_run :
      (e : Extension V) (s : Script) (p : List (ActivationEvent × Handler) × Option E)
      (f : Fired Handler Ctx E R)
      → p.1 ≡ none
      → Succeeds e s
      → (after_run engine (script_match match_string parse) request_of handler event e p f).error
        ≡ none
  unfolding after_run
  error-after_run e s (fns, some err) f k h = cc
  error-after_run e s (fns, none) f k h = error-call_registered e s _ _ h

  run_script-Succeeds :
      (e : Extension V) (s : Script) (f : Fired Handler Ctx E R)
      → Succeeds e s
      → (run_script engine (script_match match_string parse) request_of handler event e s f).error
        ≡ none
  unfolding run_script with_script_file after_inject
  run_script-Succeeds e s f h =
      rw (run_script, h.matches (request_of f.ctx), h.readable, h.injected)
        (error-after_run e s (engine.run_string e s) f h.ran h)

  -- If the last script of the last extension succeeds, no error is returned, whatever messages the
  -- scripts before it ended with. The script matches any request, can be read and injected into,
  -- and ends without an error, as does every handler.
  pub triggered-silent :
      {M : Type 0} (assert_error : E → Option M) (es : List (Extension V)) (e : Extension V)
      (ss : List Script) (s : Script) (ctx : Ctx) (result : R)
      → e.disabled ≡ false
      → e.scripts ≡ ss ++ s ∷ []
      → Succeeds e s
      → (triggered assert_error (es ++ e ∷ []) ctx result).0 ≡ none
  unfolding do_trigger each_extension each_script
  triggered-silent assert_error es e ss s ctx result enabled scripts h =
      let before = extensions_run es (first_fired ctx result) in
      let ended = run_script-Succeeds e s (scripts_run e ss before) h in
      simp (
        extensions_run-append es (e ∷ []) (first_fired ctx result),
        enabled,
        scripts,
        scripts_run-append e ss (s ∷ []) before,
        ended,
      )
