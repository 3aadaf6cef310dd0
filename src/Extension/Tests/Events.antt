-- ===== src/Extension/Tests/Events.antt =====
-- Examples for scripts and what they keep.
use Prim.Native.String.{String}
use text.Mathlib.Text.{◌==◌ as str_eq}
use gopeed_torbox.Base.{
  ℕ, ◌+◌, ◌≡◌, refl, Bool, true, false, Option, none, some, List, [], ◌∷◌, arith, if◌then◌else◌,
  Assoc, lookup, insert, bytes_eq,
}
use gopeed_torbox.Util.Match.{
  Url, match_url, match_parsed, match_host, match_path, parse_pattern, split_scheme, split_path,
  cut_at, has_prefix, has_suffix, has_byte, slashed_pattern, stars_to_regexp,
}
use gopeed_torbox.Download.Storage.{MemStorage, setup, new_mem_storage, get, put, delete, bucket_of}
use gopeed_torbox.Download.Storage.Laws.{has_bucket}
use gopeed_torbox.Download.Storage.Interface.{Storage, mem_storage}
use gopeed_torbox.Extension.Manifest.{Extension, Script}
use gopeed_torbox.Extension.Registry.{bucket_extension_storage}
use gopeed_torbox.Extension.Trigger.{on_start, Matched, Engine, read, script_match, any_url}
use gopeed_torbox.Extension.Trigger.Order.{triggered, concerned, triggered-concerned, Succeeds}
use gopeed_torbox.Extension.Trigger.Stale.{Registers, triggered-stale}
use gopeed_torbox.Extension.Context
use gopeed_torbox.Extension.Context.Refines.{set, remove, clear, KeepsMaps, ShowsValues}
use gopeed_torbox.Extension.Context.{get_raw_data}
use gopeed_torbox.Extension.Context.Interleaved.{
  CallEvent, begins, ends, running, after_end, idle, apart, meant_events, write_back, event, events,
}
use gopeed_torbox.Extension.Context.Interleaved.Apart.{events-ShowsValues}

-- A script for every request: `*://*/*`
abbrev script : String → Script
script event = record {
  event = event;
  rules = some (record { urls = (42 ∷ 58 ∷ 47 ∷ 47 ∷ 42 ∷ 47 ∷ 42 ∷ []) ∷ []; labels = [] });
  entry = "index.js";
}

abbrev extension : String → Bool → List Script → Extension ℕ
extension name disabled scripts = record {
  identity = name;
  name = name;
  author = "";
  title = "t";
  description = "";
  icon = "";
  version = "1";
  homepage = "";
  repository = none;
  scripts = scripts;
  settings = [];
  disabled = disabled;
  dev_mode = false;
  dev_path = "";
  created_at = 0;
  updated_at = 0;
}

-- The context is a number, to which each call adds 1; `a` registers a handler, and `b` registers none.
abbrev engine : Engine ℕ ℕ ℕ ℕ
engine = record {
  file = λ e s. read;
  inject = λ e. none;
  run_string = λ e s. if str_eq e.name "a" then ((on_start, 7) ∷ [], none) else ([], none);
  call_function = λ fn c. (c + 1, none);
}

abbrev request : ℕ → Matched
request c = record { url = []; labels = [] }

abbrev nothing : Extension ℕ → ℕ → ℕ → ℕ × ℕ
nothing e c r = (c, r)

abbrev a : Extension ℕ
a = extension "a" false (script "onStart" ∷ [])

abbrev b : Extension ℕ
b = extension "b" false (script "onStart" ∷ [])

-- Every text is a URL, and every path matches.
abbrev parse : List ℕ → Option Url
parse u = some (record { scheme = u; hostname = u; path = u })

abbrev any_path : List ℕ → List ℕ → Bool
any_path pattern s = true

triggered-concerned_example :
    triggered any_path parse engine request nothing on_start
      (λ e. some e)
      (extension "c" true (script "onStart" ∷ [])
        ∷ a
        ∷ extension "d" false (script "onDone" ∷ [])
        ∷ [])
      0
      0
    ≡ triggered any_path parse engine request nothing on_start (λ e. some e) (a ∷ []) 0 0
unfolding concerned
triggered-concerned_example =
    triggered-concerned any_path parse engine request nothing on_start (λ e. some e)
      (extension "c" true (script "onStart" ∷ [])
        ∷ a
        ∷ extension "d" false (script "onDone" ∷ [])
        ∷ [])
      0 0

always :
    (s : Script) (r : Matched)
    → s ≡ script "onStart"
    → script_match any_path parse s on_start r ≡ true
unfolding script_match any_url match_url match_parsed match_host match_path parse_pattern
    split_scheme split_path cut_at has_prefix has_suffix has_byte slashed_pattern stars_to_regexp
    bytes_eq
always s r e = rw e refl

b-Succeeds : Succeeds any_path parse engine request nothing on_start b (script "onStart")
b-Succeeds = record {
  matches = λ r. always (script "onStart") r refl;
  readable = refl;
  injected = refl;
  ran = refl;
  called = λ fn c. refl;
}

registers :
    (name : String)
    → Registers any_path parse engine request nothing on_start
        (extension name false (script "onStart" ∷ []))
        (script "onStart")
        (if str_eq name "a" then (on_start, 7) ∷ [] else [])
registers name = record {
  enabled = refl;
  single = refl;
  matches = λ r. always (script "onStart") r refl;
  readable = refl;
  injected = refl;
  ran = ground arith;
}

triggered-stale_example :
    (triggered any_path parse engine request nothing on_start (λ e. some e) (a ∷ b ∷ []) 0 0).1.ctx
    ≡ 0 + 1 + 1
triggered-stale_example =
    triggered-stale any_path parse engine request nothing on_start (λ e. some e) a b
      (script "onStart") (script "onStart") 7 (λ c. c + 1) 0 0 (registers "a") (registers "b")
      (λ c. refl) (λ e c r. refl)

abbrev memory : Storage (MemStorage (Assoc String)) (Assoc String)
unfolding mem_storage
memory = mem_storage (λ m. m)

memory-KeepsMaps : KeepsMaps memory (λ m. m) (λ m. m)
unfolding memory mem_storage
memory-KeepsMaps = record {
  puts_some = λ k v s. (put bucket_extension_storage k v s, refl);
  deletes_some = λ k s. (delete bucket_extension_storage k s, refl);
  read_again = λ m. refl;
}

abbrev empty : MemStorage (Assoc String)
unfolding setup new_mem_storage
empty = setup (bucket_extension_storage ∷ []) new_mem_storage

empty-ShowsValues : ShowsValues memory (λ m. m) (λ m. m) empty (λ i k. none)
unfolding memory mem_storage empty setup new_mem_storage has_bucket bucket_of get lookup insert
    Context.get
empty-ShowsValues = record { bucket = refl; values = λ i k. refl }

-- The calls of `a` and `b` overlap, and `a` sets two values one after another.
abbrev history : List CallEvent
history =
    begins 1 (set "a" "k" "1")
    ∷ begins 2 (set "b" "k" "2")
    ∷ ends 1
    ∷ begins 3 (set "a" "l" "3")
    ∷ ends 2
    ∷ begins 1 (remove "b" "k")
    ∷ ends 1
    ∷ begins 4 (clear "c")
    ∷ ends 3
    ∷ ends 4
    ∷ []

events-ShowsValues_example :
    ShowsValues memory
      (λ m. m)
      (λ m. m)
      (events memory (λ m. m) (λ m. m) history (record { stored = empty; runs = [] })).stored
      (meant_events history [] (λ i k. none))
unfolding apart idle after_end
events-ShowsValues_example =
    events-ShowsValues memory (λ m. m) (λ m. m) memory-KeepsMaps history empty (λ i k. none)
      empty-ShowsValues refl

-- Two calls of one extension that overlap: the first value is lost.
lost :
    Context.get memory
      (λ m. m)
      (λ m. m)
      "a"
      "k"
      (events memory
        (λ m. m)
        (λ m. m)
        (begins 1 (set "a" "k" "1") ∷ begins 2 (set "a" "l" "2") ∷ ends 1 ∷ ends 2 ∷ [])
        (record { stored = empty; runs = [] })).stored
    ≡ none
unfolding events event running after_end write_back get_raw_data memory mem_storage empty setup
    new_mem_storage has_bucket bucket_of get put delete lookup insert Context.get
lost = refl
