-- ===== src/Extension/Context/Interleaved/Runs.antt =====
-- pkg/download/extension.go: the calls that run, and which of them are of one extension.
use Prim.Native.String.{String}
use text.Mathlib.Text.{◌==◌ as str_eq}
use text.Mathlib.TextEquality.{eq_iff}
use gopeed_torbox.Base.{
  ℕ, ◌≡◌, refl, ap, Bool, true, false, ◌&&◌, Option, none, some, List, [], ◌∷◌, ◌==◌, arith, Assoc,
  Bool-cases, inl, inr,
}
use gopeed_torbox.Extension.Context.Refines.{Call}
use gopeed_torbox.Extension.Context.Interleaved.{caller, running, after_end, idle}

abbrev pub Runs : Type 0
Runs = List (ℕ × (Call × Assoc String))

abbrev pub forget : Runs → List (ℕ × Call)
forget [] = []
forget ((g, (c, raw)) ∷ ps) = (g, c) ∷ forget ps

abbrev pub call_of : Option (Call × Assoc String) → Option Call
call_of none = none
call_of (some (c, raw)) = some c

abbrev pub map_of : Option (Call × Assoc String) → Option (Assoc String)
map_of none = none
map_of (some (c, raw)) = some raw

-- No two calls of one extension run.
unfoldable pub distinct : Runs → Bool
distinct [] = true
distinct ((g, (c, raw)) ∷ ps) = idle (caller c) (forget ps) && distinct ps

pub running-forget : (g : ℕ) (ps : Runs) → running g (forget ps) ≡ call_of (running g ps)
unfolding running
running-forget g [] = refl
running-forget g ((h, (c, raw)) ∷ ps) = ground (arith, running-forget g ps)

pub after_end-forget : (g : ℕ) (ps : Runs) → after_end g (forget ps) ≡ forget (after_end g ps)
unfolding after_end
after_end-forget g [] = refl
after_end-forget g ((h, (c, raw)) ∷ ps) = elim (Bool-cases (h == g)) [
  | inl q ↦ rw q refl
  | inr q ↦ rw q (ap (λ r. (h, c) ∷ r) (after_end-forget g ps))
]

pub idle-after_end :
    (i : String) (g : ℕ) (ps : Runs)
    → idle i (forget ps) ≡ true
    → idle i (forget (after_end g ps)) ≡ true
unfolding idle after_end
idle-after_end i g [] h = refl
idle-after_end i g ((k, (c, raw)) ∷ ps) h = ground (arith, idle-after_end i g ps, h)

pub distinct-after_end : (g : ℕ) (ps : Runs) → distinct ps ≡ true → distinct (after_end g ps) ≡ true
unfolding distinct after_end
distinct-after_end g [] h = refl
distinct-after_end g ((k, (c, raw)) ∷ ps) h =
    ground (arith, distinct-after_end g ps, idle-after_end (caller c) g ps, h)

-- A call that runs is not one of an extension that is idle.
pub running-idle :
    (i : String) (g : ℕ) (ps : Runs) (c : Call) (raw : Assoc String)
    → running g ps ≡ some (c, raw)
    → idle i (forget ps) ≡ true
    → str_eq (caller c) i ≡ false
unfolding running idle
running-idle i g [] c raw e h = cc
running-idle i g ((k, (d, r)) ∷ ps) c raw e h = elim (Bool-cases (k == g)) [
  | inl q ↦
      let picked : some d ≡ some c = ap call_of (rw q at e) in
      let same : c ≡ d = cc in rw same (ground (arith, h))
  | inr q ↦ running-idle i g ps c raw (rw q at e) (ground (arith, h))
]

pub str_eq-swap : (i j : String) → str_eq i j ≡ false → str_eq j i ≡ false
str_eq-swap i j h = ground (arith, eq_iff i j, eq_iff j i, h)

-- The others are of other extensions.
pub others-idle :
    (g : ℕ) (ps : Runs) (c : Call) (raw : Assoc String)
    → running g ps ≡ some (c, raw)
    → distinct ps ≡ true
    → idle (caller c) (forget (after_end g ps)) ≡ true
unfolding running idle after_end distinct
others-idle g [] c raw e h = cc
others-idle g ((k, (d, r)) ∷ ps) c raw e h = elim (Bool-cases (k == g)) [
  | inl q ↦
      let picked : some d ≡ some c = ap call_of (rw q at e) in
      let same : c ≡ d = cc in rw (q, same) (ground (arith, h))
  | inr q ↦
      let there : running g ps ≡ some (c, raw) = rw q at e in
      let rest = others-idle g ps c raw there (ground (arith, h)) in
      let other = running-idle (caller d) g ps c raw there (ground (arith, h)) in
      rw q (ground (arith, rest, str_eq-swap (caller c) (caller d) other))
]
