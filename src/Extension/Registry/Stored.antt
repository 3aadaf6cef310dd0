-- ===== src/Extension/Registry/Stored.antt =====
-- pkg/download/extension.go: the list of extensions and what is stored of them.
use Prim.Native.String.{String}
use text.Mathlib.Text.{◌==◌ as str_eq}
use gopeed_torbox.Base.{
  ℕ, ◌≡◌, refl, ◌∙◌, Bool, true, false, Option, none, some, List, [], ◌∷◌, ◌++◌, if◌then◌else◌,
  Option-cases, Bool-cases, inl, inr,
}
use gopeed_torbox.Extension.Manifest.{Extension}
use gopeed_torbox.Extension.Settings.{update_extension}
use gopeed_torbox.Extension.Registry.{
  Registry, get_extension, replaced, without_extension, put_extension, install_over, install_parsed,
  change_found, delete_stored, delete_found, bucket_extension, bucket_extension_storage, with_path,
}
use gopeed_torbox.Extension.Registry.Identities.{
  distinct, identity-get, missing-get, get-append, get-replaced, get-without_extension,
  distinct-append, distinct-replaced, distinct-without_extension,
}
use gopeed_torbox.Download.Storage.Interface.{Storage}

module _ {V S Z : Type 0} (st : Storage S Z) (as_value : Extension V → Z) where
  abbrev pub stored_value : Option (Extension V) → Option Z
  stored_value none = none
  stored_value (some e) = some (st.keeps (as_value e))

  -- The identities are distinct, and under each is stored the extension with it, if there is one.
  pub record Agrees (r : Registry V S) : Type 0 where
    pub bucket : st.has bucket_extension r.stored ≡ true
    pub identities : distinct r.extensions ≡ true
    pub same :
        (i : String)
        → st.reads bucket_extension i r.stored ≡ stored_value (get_extension i r.extensions)

  -- `Put` and `Delete` return no error.
  pub record NeverFails : Type 0 where
    pub puts_some : (b k : String) (v : Z) (s : S) → (t : S) × (st.puts b k v s ≡ some t)
    pub deletes_some : (b k : String) (s : S) → (t : S) × (st.deletes b k s ≡ some t)

  module _ (sure : NeverFails) where
    put_extension-Agrees :
        (e : Extension V) (es : List (Extension V)) (r : Registry V S)
        → Agrees r
        → distinct es ≡ true
        → ((i : String)
            → get_extension i es
              ≡ (if str_eq e.identity i then some e else get_extension i r.extensions))
        → Agrees (put_extension st as_value e es r.stored).0
    put_extension-Agrees e es r a d g =
        let (t, done) = sure.puts_some bucket_extension e.identity (as_value e) r.stored in
        rw (put_extension, done)
          (record {
            bucket =
                st.has-puts bucket_extension e.identity bucket_extension (as_value e) done
                ∙ a.bucket;
            identities = d;
            same = λ i. put_reads i t done;
          })
      where
        put_reads :
            (i : String) (t : S)
            → st.puts bucket_extension e.identity (as_value e) r.stored ≡ some t
            → st.reads bucket_extension i t ≡ stored_value (get_extension i es)
        put_reads i t done =
            let law =
              st.reads-puts bucket_extension e.identity bucket_extension i (as_value e) a.bucket
                done in
            elim (Bool-cases (str_eq e.identity i)) [
              | inl q ↦ rw (law, g i, q) refl
              | inr q ↦ rw (law, g i, q) (a.same i)
            ]

    -- An extension is changed where it stands, and its identity stays.
    replaced-Agrees :
        (n o : Extension V) (i : String) (r : Registry V S)
        → get_extension i r.extensions ≡ some o
        → n.identity ≡ o.identity
        → Agrees r
        → Agrees (put_extension st as_value n (replaced n r.extensions) r.stored).0
    replaced-Agrees n o i r g same a =
        let name : n.identity ≡ i = same ∙ identity-get i r.extensions o g in
        let found : get_extension n.identity r.extensions ≡ some o = rw name g in
        put_extension-Agrees n (replaced n r.extensions) r a
          (distinct-replaced r.extensions n a.identities)
          (λ j. get-replaced j r.extensions n o found)

    install_over-Agrees :
        (now : ℕ) (e : Extension V) (r : Registry V S) (o : Option (Extension V))
        → get_extension e.identity r.extensions ≡ o
        → Agrees r
        → Agrees (install_over st as_value now e r o).0
    unfolding update_extension
    install_over-Agrees now e r none g a =
        let new = record e { created_at = now; updated_at = now } in
        put_extension-Agrees new (r.extensions ++ new ∷ []) r a
          (distinct-append r.extensions new a.identities (missing-get e.identity r.extensions g))
          (λ i. get-append i r.extensions new g)
    install_over-Agrees now e r (some old) g a =
        replaced-Agrees (update_extension old e now) old e.identity r g refl a

    pub install_parsed-Agrees :
        (dev_mode : Bool) (path : String) (copied : Bool) (now : ℕ) (o : Option (Extension V))
        (r : Registry V S)
        → Agrees r
        → Agrees (install_parsed st as_value dev_mode path copied now o r).0
    unfolding install_parsed
    install_parsed-Agrees dev_mode path copied now none r a = a
    install_parsed-Agrees true path copied now (some e) r a =
        install_over-Agrees now (with_path true path e) r (get_extension e.identity r.extensions)
          refl a
    install_parsed-Agrees false path true now (some e) r a =
        install_over-Agrees now e r (get_extension e.identity r.extensions) refl a
    install_parsed-Agrees false path false now (some e) r a = a

    pub change_found-Agrees :
        (f : Extension V → Extension V) (i : String) (r : Registry V S)
        → ((e : Extension V) → (f e).identity ≡ e.identity)
        → Agrees r
        → Agrees (change_found st as_value f (get_extension i r.extensions) r).0
    unfolding change_found
    change_found-Agrees f i r same a = elim (Option-cases (get_extension i r.extensions)) [
      | inl missing ↦ rw missing a
      | inr (e, found) ↦ rw found (replaced-Agrees (f e) e i r found (same e) a)
    ]

    delete_stored-Agrees :
        (i : String) (r : Registry V S)
        → Agrees r
        → Agrees (delete_stored st as_value i (without_extension i r.extensions) r.stored).0
    delete_stored-Agrees i r a =
        let (t, first) = sure.deletes_some bucket_extension i r.stored in
        let (u, second) = sure.deletes_some bucket_extension_storage i t in
        rw (delete_stored, first, second)
          (record {
            bucket =
                st.has-deletes bucket_extension_storage i bucket_extension second
                ∙ (st.has-deletes bucket_extension i bucket_extension first ∙ a.bucket);
            identities = distinct-without_extension i r.extensions a.identities;
            same = λ j. deleted_reads j t u first second;
          })
      where
        deleted_reads :
            (j : String) (t u : S)
            → st.deletes bucket_extension i r.stored ≡ some t
            → st.deletes bucket_extension_storage i t ≡ some u
            → st.reads bucket_extension j u
              ≡ stored_value (get_extension j (without_extension i r.extensions))
        deleted_reads j t u first second =
            let law = st.reads-deletes bucket_extension i bucket_extension j first in
            let other = st.reads-deletes bucket_extension_storage i bucket_extension j second in
            let gone = get-without_extension j i r.extensions a.identities in
            elim (Bool-cases (str_eq i j)) [
              | inl q ↦ rw (other, law, gone, q) refl
              | inr q ↦ rw (other, law, gone, q) (a.same j)
            ]

    pub delete_found-Agrees :
        (removable : Bool) (i : String) (o : Option (Extension V)) (r : Registry V S)
        → Agrees r
        → Agrees (delete_found st as_value removable i o r).0
    unfolding delete_found
    delete_found-Agrees removable i none r a = a
    delete_found-Agrees removable i (some e) r a =
        let gone = delete_stored-Agrees i r a in
        elim (Bool-cases e.dev_mode) [
          | inl q ↦ rw q gone
          | inr q ↦ elim (Bool-cases removable) [ inl p ↦ rw (q, p) gone | inr p ↦ rw (q, p) a ]
        ]
