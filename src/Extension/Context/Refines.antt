-- ===== src/Extension/Context/Refines.antt =====
-- pkg/download/extension.go: the values that scripts keep, against a function from extensions and keys.
use Prim.Native.String.{String}
use text.Mathlib.Text.{◌==◌ as str_eq}
use text.Mathlib.TextEquality.{eq_iff}
use gopeed_torbox.Base.{
  ◌≡◌, refl, ◌∙◌, true, ◌&&◌, Option, none, some, if◌then◌else◌, arith, Assoc, lookup, insert,
  without, lookup-insert, lookup-without, Bool-cases, inl, inr,
}
use gopeed_torbox.Extension.Registry.{bucket_extension_storage}
use gopeed_torbox.Extension.Context
use gopeed_torbox.Extension.Context.{data_of, get_raw_data, put_raw_data}
use gopeed_torbox.Download.Storage.Interface.{Storage}

-- A call of a script of the extension with the first text as identity.
pub data Call : Type 0 where
  set : String → String → String → Call
  remove : String → String → Call
  clear : String → Call

-- The values of all extensions, by identity and key.
abbrev pub Values : Type 0
Values = String → String → Option String

-- What a call makes of them: nothing changes for other extensions and other keys.
abbrev pub meant : Call → Values → Values
meant (set i k v) m j l = if str_eq i j && str_eq k l then some v else m j l
meant (remove i k) m j l = if str_eq i j && str_eq k l then none else m j l
meant (clear i) m j l = if str_eq i j then none else m j l

module _ {S Z : Type 0} (st : Storage S Z) (as_value : Assoc String → Z)
    (of_value : Z → Assoc String) where
  unfoldable pub call : Call → S → S
  unfolding Context.set Context.remove Context.clear
  call (set i k v) s = Context.set st as_value of_value i k v s
  call (remove i k) s = Context.remove st as_value of_value i k s
  call (clear i) s = Context.clear st as_value of_value i s

  -- The storage has the bucket, its `Put` and `Delete` return no error, and a map that is stored is read
  -- again.
  pub record KeepsMaps : Type 0 where
    pub puts_some :
        (k : String) (v : Z) (s : S) → (t : S) × (st.puts bucket_extension_storage k v s ≡ some t)
    pub deletes_some :
        (k : String) (s : S) → (t : S) × (st.deletes bucket_extension_storage k s ≡ some t)
    pub read_again : (m : Assoc String) → of_value (st.keeps (as_value m)) ≡ m

  -- The storage has the bucket, and `get` gives the values.
  pub record ShowsValues (s : S) (m : Values) : Type 0 where
    pub bucket : st.has bucket_extension_storage s ≡ true
    pub values : (i k : String) → Context.get st as_value of_value i k s ≡ m i k

  module _ (sure : KeepsMaps) where
    pub put_raw_data-reads :
        (i : String) (m : Assoc String) (s : S)
        → st.has bucket_extension_storage s ≡ true
        → (st.has bucket_extension_storage (put_raw_data st as_value of_value i m s) ≡ true)
          × ((j : String)
              → get_raw_data st as_value of_value j (put_raw_data st as_value of_value i m s)
                ≡ (if str_eq i j then m else get_raw_data st as_value of_value j s))
    unfolding get_raw_data
    put_raw_data-reads i m s h =
        let (t, done) = sure.puts_some i (as_value m) s in
        rw (put_raw_data, done)
          (
            st.has-puts bucket_extension_storage i bucket_extension_storage (as_value m) done ∙ h,
            λ j. put_reads j t done,
          )
      where
        put_reads :
            (j : String) (t : S)
            → st.puts bucket_extension_storage i (as_value m) s ≡ some t
            → data_of st as_value of_value (st.reads bucket_extension_storage j t)
              ≡ (if str_eq i j then m else get_raw_data st as_value of_value j s)
        put_reads j t done =
            let law =
              st.reads-puts bucket_extension_storage i bucket_extension_storage j (as_value m) h
                done in
            elim (Bool-cases (str_eq i j)) [
              | inl q ↦ rw (law, q) (sure.read_again m)
              | inr q ↦ rw (law, q) refl
            ]

    -- A write of a map that has the value for its keys, and leaves those of others.
    put_raw_data-ShowsValues :
        (i : String) (raw : Assoc String) (s : S) (m n : Values)
        → ShowsValues s m
        → ((j k : String) → n j k ≡ (if str_eq i j then lookup k raw else m j k))
        → ShowsValues (put_raw_data st as_value of_value i raw s) n
    unfolding Context.get
    put_raw_data-ShowsValues i raw s m n h same =
        let (has, reads) = put_raw_data-reads i raw s h.bucket in
        record {
          bucket = has;
          values = λ j k. elim (Bool-cases (str_eq i j)) [
            | inl q ↦ rw (same j k, reads j, q) refl
            | inr q ↦ rw (same j k, reads j, q) (h.values j k)
          ];
        }

    pub call-ShowsValues :
        (c : Call) (s : S) (m : Values) → ShowsValues s m → ShowsValues (call c s) (meant c m)
    unfolding call Context.set Context.remove Context.clear Context.get get_raw_data lookup
    call-ShowsValues (set i k v) s m h =
        put_raw_data-ShowsValues i (insert k v (get_raw_data st as_value of_value i s)) s m
          (meant (set i k v) m) h
          (λ j l. ground (
            arith,
            lookup-insert l k v (get_raw_data st as_value of_value i s),
            h.values i l,
            eq_iff i j,
          ))
    call-ShowsValues (remove i k) s m h =
        put_raw_data-ShowsValues i (without k (get_raw_data st as_value of_value i s)) s m
          (meant (remove i k) m) h
          (λ j l. ground (
            arith,
            lookup-without l k (get_raw_data st as_value of_value i s),
            h.values i l,
            eq_iff i j,
          ))
    call-ShowsValues (clear i) s m h =
        let (t, done) = sure.deletes_some i s in
        rw (call, Context.clear, done)
          (record {
            bucket =
                st.has-deletes bucket_extension_storage i bucket_extension_storage done ∙ h.bucket;
            values = λ j k. delete_reads j k t done;
          })
      where
        delete_reads :
            (j k : String) (t : S)
            → st.deletes bucket_extension_storage i s ≡ some t
            → lookup k (data_of st as_value of_value (st.reads bucket_extension_storage j t))
              ≡ meant (clear i) m j k
        delete_reads j k t done =
            let law = st.reads-deletes bucket_extension_storage i bucket_extension_storage j done in
            elim (Bool-cases (str_eq i j)) [
              | inl q ↦ rw (law, q) refl
              | inr q ↦ rw (law, q) (h.values j k)
            ]
