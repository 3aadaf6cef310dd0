-- ===== src/Extension/Context/Interleaved.antt =====
-- pkg/download/extension.go: calls of `Set`, `Remove` and `Clear` by scripts that run in several goroutines. A call
-- begins with the reading of the extension's map, and ends with the writing of what it makes of it;
-- between the two, other goroutines go on.
pub mod Runs
pub mod Apart
use Prim.Native.String.{String}
use text.Mathlib.Text.{◌==◌ as str_eq}
use text.Mathlib.TextEquality.{eq_iff}
use gopeed_torbox.Base.{
  ℕ, ◌≡◌, refl, ◌∙◌, ap, Bool, true, false, not, ◌&&◌, ◌||◌, Option, none, some, List, [], ◌∷◌,
  ◌==◌, if◌then◌else◌, arith, Assoc, insert, without, Bool-cases, inl, inr, Option-cases, map,
}
use gopeed_torbox.Extension.Context
use gopeed_torbox.Extension.Context.{get_raw_data, put_raw_data}
use gopeed_torbox.Extension.Context.Refines.{
  Call, set, remove, clear, Values, meant, call, KeepsMaps, ShowsValues, call-ShowsValues,
  put_raw_data-reads,
}
use gopeed_torbox.Download.Storage.Interface.{Storage}

-- A call begins or ends in the goroutine with a number.
pub data CallEvent : Type 0 where
  begins : ℕ → Call → CallEvent
  ends : ℕ → CallEvent

abbrev pub caller : Call → String
caller (set i k v) = i
caller (remove i k) = i
caller (clear i) = i

-- What a goroutine is doing, if it is doing anything, and the others.
module _ {ℓ} {A : Type ℓ} where
  unfoldable pub running : ℕ → List (ℕ × A) → Option A
  running g [] = none
  running g ((h, a) ∷ ps) = if h == g then some a else running g ps

  unfoldable pub after_end : ℕ → List (ℕ × A) → List (ℕ × A)
  after_end g [] = []
  after_end g ((h, a) ∷ ps) = let rest = after_end g ps in if h == g then ps else (h, a) ∷ rest

-- No call of an extension runs.
unfoldable pub idle : String → List (ℕ × Call) → Bool
idle i [] = true
idle i ((g, c) ∷ ps) = not (str_eq (caller c) i) && idle i ps

-- No call of an extension begins while one of the same extension runs.
unfoldable pub apart : List CallEvent → List (ℕ × Call) → Bool
unfolding idle after_end
apart [] ps = true
apart (begins g c ∷ es) ps = idle (caller c) ps && apart es ((g, c) ∷ ps)
apart (ends g ∷ es) ps = apart es (after_end g ps)

-- What the calls make of the values, in the order in which they end.
abbrev pub meant_end : Option Call → Values → Values
meant_end none m = m
meant_end (some c) m = meant c m

unfoldable pub meant_events : List CallEvent → List (ℕ × Call) → Values → Values
unfolding running after_end
meant_events [] ps m = m
meant_events (begins g c ∷ es) ps m = meant_events es ((g, c) ∷ ps) m
meant_events (ends g ∷ es) ps m = meant_events es (after_end g ps) (meant_end (running g ps) m)

-- The storage, and the calls that run, each with the map that it has read.
pub record Scripts (S : Type 0) : Type 0 where
  pub stored : S
  pub runs : List (ℕ × (Call × Assoc String))

module _ {S Z : Type 0} (st : Storage S Z) (as_value : Assoc String → Z)
    (of_value : Z → Assoc String) where
  -- The end of a call; `Clear` reads nothing.
  unfoldable pub write_back : Call → Assoc String → S → S
  unfolding Context.clear
  write_back (set i k v) raw s = put_raw_data st as_value of_value i (insert k v raw) s
  write_back (remove i k) raw s = put_raw_data st as_value of_value i (without k raw) s
  write_back (clear i) raw s = Context.clear st as_value of_value i s

  abbrev pub end_of_call : Option (Call × Assoc String) → S → S
  unfolding write_back
  end_of_call none s = s
  end_of_call (some (c, raw)) s = write_back c raw s

  unfoldable pub event : CallEvent → Scripts S → Scripts S
  unfolding get_raw_data running after_end end_of_call
  event (begins g c) w = record w {
    runs = (g, (c, get_raw_data st as_value of_value (caller c) w.stored)) ∷ w.runs;
  }
  event (ends g) w = record {
    stored = end_of_call (running g w.runs) w.stored;
    runs = after_end g w.runs;
  }

  unfoldable pub events : List CallEvent → Scripts S → Scripts S
  unfolding event
  events [] w = w
  events (e ∷ es) w = events es (event e w)
