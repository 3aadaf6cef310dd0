-- ===== src/Extension/Manifest.antt =====
-- pkg/download/extension.go: extensions as they are installed, and what is read of a manifest. Values of
-- settings are of a type `V`; nil is `none`. Texts that are taken apart are lists of bytes.
use Prim.Native.String.{String, ◌++◌}
use text.Mathlib.Text.{◌==◌ as str_eq}
use gopeed_torbox.Base.{ℕ, Bool, ◌||◌, Option, none, some, List, if◌then◌else◌}

pub record Repository : Type 0 where
  pub url : List ℕ
  pub directory : List ℕ

-- The rules of a script: patterns of URLs, and labels of requests.
pub record Rules : Type 0 where
  pub urls : List (List ℕ)
  pub labels : List String

pub record Script : Type 0 where
  pub event : String
  pub rules : Option Rules
  pub entry : String

pub record SettingOption (V : Type 0) : Type 0 where
  pub label : String
  pub value : V

pub record Setting (V : Type 0) : Type 0 where
  pub name : String
  pub title : String
  pub description : String
  pub required : Bool
  pub type : String
  pub value : Option V
  pub options : List (SettingOption V)

pub record Extension (V : Type 0) : Type 0 where
  pub identity : String
  pub name : String
  pub author : String
  pub title : String
  pub description : String
  pub icon : String
  pub version : String
  pub homepage : String
  pub repository : Option Repository
  pub scripts : List Script
  pub settings : List (Setting V)
  pub disabled : Bool
  pub dev_mode : Bool
  pub dev_path : String
  pub created_at : ℕ
  pub updated_at : ℕ

-- How the manifest is read: there is none, it cannot be read or decoded, or it is decoded.
pub data ManifestRead (V : Type 0) : Type 0 where
  no_manifest unreadable : ManifestRead V
  decoded : Extension V → ManifestRead V

module _ {V : Type 0} where
  -- Whether there is an error.
  unfoldable pub validate : Extension V → Bool
  validate e = str_eq e.name "" || (str_eq e.title "" || str_eq e.version "")

  unfoldable pub build_identity : Extension V → String
  build_identity e = if str_eq e.author "" then e.name else e.author ++ ("@" ++ e.name)

  -- `none` is an error.
  unfoldable pub parse_extension : ManifestRead V → Option (Extension V)
  unfolding validate build_identity
  parse_extension no_manifest = none
  parse_extension unreadable = none
  parse_extension (decoded e) =
      if validate e then none else some (record e { identity = build_identity e })
