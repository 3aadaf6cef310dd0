-- ===== src/Extension/Registry/History.antt =====
-- pkg/download/extension.go: histories of the operations on extensions.
use Prim.Native.String.{String}
use gopeed_torbox.Base.{ℕ, refl, Bool, Option, List, [], ◌∷◌, Assoc}
use gopeed_torbox.Extension.Manifest.{Extension, ManifestRead, parse_extension}
use gopeed_torbox.Extension.Registry.{
  Registry, get_extension, install_extension_by_folder, switch_extension, update_extension_settings,
  delete_extension,
}
use gopeed_torbox.Extension.Registry.Stored.{
  Agrees, NeverFails, install_parsed-Agrees, change_found-Agrees, delete_found-Agrees,
}
use gopeed_torbox.Download.Storage.Interface.{Storage}

-- An operation with what it meets of the file system and the time.
pub data Op (V : Type 0) : Type 0 where
  install : ManifestRead V → Bool → String → Bool → ℕ → Op V
  switch : String → Bool → Op V
  settings : String → Assoc (Option V) → Op V
  remove : String → Bool → Op V

module _ {V S Z : Type 0} (st : Storage S Z) (as_value : Extension V → Z) (sprint : V → String)
    (of_text : String → V) (parse_float parse_bool : String → Option V) where
  unfoldable pub step : Op V → Registry V S → Registry V S
  unfolding install_extension_by_folder switch_extension update_extension_settings delete_extension
  step (install manifest dev_mode path copied now) r =
      (install_extension_by_folder st as_value manifest dev_mode path copied now r).0
  step (switch i status) r = (switch_extension st as_value i status r).0
  step (settings i given) r =
      (update_extension_settings st as_value sprint of_text parse_float parse_bool i given r).0
  step (remove i removable) r = (delete_extension st as_value i removable r).0

  unfoldable pub run : List (Op V) → Registry V S → Registry V S
  unfolding step
  run [] r = r
  run (op ∷ ops) r = run ops (step op r)

  module _ (sure : NeverFails st as_value) where
    pub step-Agrees :
        (op : Op V) (r : Registry V S) → Agrees st as_value r → Agrees st as_value (step op r)
    unfolding step
    step-Agrees (install manifest dev_mode path copied now) r a =
        install_parsed-Agrees st as_value sure dev_mode path copied now (parse_extension manifest) r
          a
    step-Agrees (switch i status) r a = change_found-Agrees st as_value sure _ i r (λ e. refl) a
    step-Agrees (settings i given) r a = change_found-Agrees st as_value sure _ i r (λ e. refl) a
    step-Agrees (remove i removable) r a =
        delete_found-Agrees st as_value sure removable i (get_extension i r.extensions) r a

    -- In a storage whose Put and Delete return no error, after any history of installations,
    -- updates, switches, new settings and deletions of extensions, successful or not, no two
    -- extensions in the list have the same identity, and what is stored is exactly the list, each
    -- extension under its identity, if that was so before.
    pub run-Agrees :
        (ops : List (Op V)) (r : Registry V S)
        → Agrees st as_value r
        → Agrees st as_value (run ops r)
    unfolding run
    run-Agrees [] r a = a
    run-Agrees (op ∷ ops) r a = run-Agrees ops (step op r) (step-Agrees op r a)
