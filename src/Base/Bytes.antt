-- ===== src/Base/Bytes.antt =====
-- Texts as lists of bytes.
use Prim.Native.Nat.{ℕ}
use mathlib.Core.Bool.{Bool, true, false, ◌&&◌}
use mathlib.Core.List.{List, [], ◌∷◌}
use gopeed_torbox.Base.Tests.{◌==◌}

-- The equality of strings.
unfoldable pub bytes_eq : List ℕ → List ℕ → Bool
bytes_eq [] [] = true
bytes_eq (b ∷ bs) (c ∷ cs) = b == c && bytes_eq bs cs
bytes_eq [] (c ∷ cs) = false
bytes_eq (b ∷ bs) [] = false
