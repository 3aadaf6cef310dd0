-- ===== src/Extension/Context.antt =====
-- pkg/download/extension.go: `ContextStorage`, the values that the scripts of an extension keep, as one map in
-- the storage for each extension.
pub mod Refines
pub mod Interleaved
use Prim.Native.String.{String}
use gopeed_torbox.Base.{
  Bool, true, false, Option, none, some, List, [], ◌∷◌, map, Assoc, lookup, insert, without,
}
use gopeed_torbox.Extension.Registry.{bucket_extension_storage}
use gopeed_torbox.Download.Storage.Interface.{Storage}

-- `as_value` is a map as a value of the storage, and `of_value` the map that `Get` reads of one.
module _ {S Z : Type 0} (st : Storage S Z) (as_value : Assoc String → Z)
    (of_value : Z → Assoc String) where
  abbrev pub data_of : Option Z → Assoc String
  data_of none = []
  data_of (some z) = of_value z

  unfoldable pub get_raw_data : String → S → Assoc String
  get_raw_data identity s = data_of (st.reads bucket_extension_storage identity s)

  unfoldable pub get : String → String → S → Option String
  unfolding get_raw_data
  get identity key s = lookup key (get_raw_data identity s)

  -- The error of `Put` is ignored.
  abbrev pub put_raw_data : String → Assoc String → S → S
  put_raw_data identity raw s = elim (st.puts bucket_extension_storage identity (as_value raw) s) [
    | none ↦ s
    | some t ↦ t
  ]

  -- A call that no other call of the extension overlaps; `Interleaved` has the reading and the writing apart.
  unfoldable pub set : String → String → String → S → S
  unfolding get_raw_data
  set identity key value s = put_raw_data identity (insert key value (get_raw_data identity s)) s

  unfoldable pub remove : String → String → S → S
  unfolding get_raw_data
  remove identity key s = put_raw_data identity (without key (get_raw_data identity s)) s

  unfoldable pub keys : String → S → List String
  unfolding get_raw_data
  keys identity s = map (λ e. e.0) (get_raw_data identity s)

  -- So is that of `Delete`.
  unfoldable pub clear : String → S → S
  clear identity s = elim (st.deletes bucket_extension_storage identity s) [ none ↦ s | some t ↦ t ]
