-- ===== src/Extension/Registry/Identities.antt =====
-- pkg/download/extension.go: the identities in the list of extensions.
use Prim.Native.String.{String}
use text.Mathlib.Text.{◌==◌ as str_eq}
use text.Mathlib.TextEquality.{eq_iff}
use gopeed_torbox.Base.{
  ◌≡◌, refl, Bool, true, false, not, ◌&&◌, ◌||◌, none, some, List, [], ◌∷◌, ◌++◌, if◌then◌else◌,
  arith,
}
use gopeed_torbox.Extension.Manifest.{Extension}
use gopeed_torbox.Extension.Registry.{get_extension, replaced, without_extension}

module _ {V : Type 0} where
  unfoldable pub has_identity : String → List (Extension V) → Bool
  has_identity i [] = false
  has_identity i (e ∷ es) = str_eq e.identity i || has_identity i es

  -- No identity twice.
  unfoldable pub distinct : List (Extension V) → Bool
  distinct [] = true
  distinct (e ∷ es) = not (has_identity e.identity es) && distinct es

  pub identity-get :
      (i : String) (es : List (Extension V)) (e : Extension V)
      → get_extension i es ≡ some e
      → e.identity ≡ i
  unfolding get_extension
  identity-get i [] e h = cc
  identity-get i (x ∷ es) e h = ground (arith, identity-get i es e, eq_iff x.identity i)

  pub missing-get :
      (i : String) (es : List (Extension V)) → get_extension i es ≡ none → has_identity i es ≡ false
  unfolding get_extension has_identity
  missing-get i [] h = refl
  missing-get i (x ∷ es) h = ground (arith, missing-get i es)

  pub get-missing :
      (i : String) (es : List (Extension V)) → has_identity i es ≡ false → get_extension i es ≡ none
  unfolding get_extension has_identity
  get-missing i [] h = refl
  get-missing i (x ∷ es) h = ground (arith, get-missing i es)

  pub get-append :
      (i : String) (es : List (Extension V)) (n : Extension V)
      → get_extension n.identity es ≡ none
      → get_extension i (es ++ n ∷ [])
        ≡ (if str_eq n.identity i then some n else get_extension i es)
  unfolding get_extension
  get-append i [] n h = refl
  get-append i (e ∷ es) n h = ground (
    arith,
    get-append i es n,
    eq_iff e.identity n.identity,
    eq_iff n.identity i,
    eq_iff e.identity i,
  )

  pub get-replaced :
      (i : String) (es : List (Extension V)) (n o : Extension V)
      → get_extension n.identity es ≡ some o
      → get_extension i (replaced n es)
        ≡ (if str_eq n.identity i then some n else get_extension i es)
  unfolding get_extension replaced
  get-replaced i [] n o h = cc
  get-replaced i (e ∷ es) n o h = ground (
    arith,
    get-replaced i es n o,
    eq_iff e.identity n.identity,
    eq_iff n.identity i,
    eq_iff e.identity i,
  )

  pub get-without_extension :
      (i k : String) (es : List (Extension V))
      → distinct es ≡ true
      → get_extension i (without_extension k es) ≡ (if str_eq k i then none else get_extension i es)
  unfolding get_extension without_extension distinct
  get-without_extension i k [] h = ground arith
  get-without_extension i k (e ∷ es) h = ground (
    arith,
    get-without_extension i k es,
    get-missing e.identity es,
    eq_iff e.identity k,
    eq_iff k i,
    eq_iff e.identity i,
  )

  pub has_identity-append :
      (i : String) (es : List (Extension V)) (n : Extension V)
      → has_identity i (es ++ n ∷ []) ≡ (has_identity i es || str_eq n.identity i)
  unfolding has_identity
  has_identity-append i [] n = ground arith
  has_identity-append i (e ∷ es) n = ground (arith, has_identity-append i es n)

  pub distinct-append :
      (es : List (Extension V)) (n : Extension V)
      → distinct es ≡ true
      → has_identity n.identity es ≡ false
      → distinct (es ++ n ∷ []) ≡ true
  unfolding distinct has_identity
  distinct-append [] n h k = refl
  distinct-append (e ∷ es) n h k = ground (
    arith,
    distinct-append es n,
    has_identity-append e.identity es n,
    eq_iff e.identity n.identity,
    eq_iff n.identity e.identity,
  )

  pub has_identity-replaced :
      (i : String) (es : List (Extension V)) (n : Extension V)
      → has_identity i (replaced n es) ≡ has_identity i es
  unfolding has_identity replaced
  has_identity-replaced i [] n = refl
  has_identity-replaced i (e ∷ es) n = ground (
    arith,
    has_identity-replaced i es n,
    eq_iff e.identity n.identity,
    eq_iff n.identity i,
    eq_iff e.identity i,
  )

  pub distinct-replaced :
      (es : List (Extension V)) (n : Extension V)
      → distinct es ≡ true
      → distinct (replaced n es) ≡ true
  unfolding distinct replaced
  distinct-replaced [] n h = refl
  distinct-replaced (e ∷ es) n h = ground (
    arith,
    distinct-replaced es n,
    has_identity-replaced e.identity es n,
    eq_iff e.identity n.identity,
  )

  pub has_identity-without_extension :
      (i k : String) (es : List (Extension V))
      → has_identity i es ≡ false
      → has_identity i (without_extension k es) ≡ false
  unfolding has_identity without_extension
  has_identity-without_extension i k [] h = refl
  has_identity-without_extension i k (e ∷ es) h =
      ground (arith, has_identity-without_extension i k es)

  pub distinct-without_extension :
      (k : String) (es : List (Extension V))
      → distinct es ≡ true
      → distinct (without_extension k es) ≡ true
  unfolding distinct without_extension
  distinct-without_extension k [] h = refl
  distinct-without_extension k (e ∷ es) h =
      ground
        (arith, distinct-without_extension k es, has_identity-without_extension e.identity k es)
