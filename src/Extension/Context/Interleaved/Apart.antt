-- ===== src/Extension/Context/Interleaved/Apart.antt =====
-- pkg/download/extension.go: calls by scripts in several goroutines, where those of one extension do not overlap.
use Prim.Native.String.{String}
use text.Mathlib.Text.{◌==◌ as str_eq}
use gopeed_torbox.Base.{
  ℕ, ◌≡◌, refl, ◌∙◌, ap, sym, true, false, some, List, [], ◌∷◌, ◌==◌, arith, Assoc, insert, without,
  Bool-cases, inl, inr, Option-cases,
}
use gopeed_torbox.Extension.Registry.{bucket_extension_storage}
use gopeed_torbox.Extension.Context
use gopeed_torbox.Extension.Context.{get_raw_data, data_of}
use gopeed_torbox.Extension.Context.Refines.{
  Call, set, remove, clear, Values, call, KeepsMaps, ShowsValues, call-ShowsValues,
  put_raw_data-reads,
}
use gopeed_torbox.Extension.Context.Interleaved.{
  CallEvent, begins, ends, caller, running, after_end, idle, apart, meant_end, meant_events,
  Scripts, write_back, event, events,
}
use gopeed_torbox.Download.Storage.Interface.{Storage}
use gopeed_torbox.Extension.Context.Interleaved.Runs.{
  Runs, forget, call_of, map_of, distinct, running-forget, after_end-forget, distinct-after_end,
  str_eq-swap, others-idle,
}

module _ {S Z : Type 0} (st : Storage S Z) (as_value : Assoc String → Z)
    (of_value : Z → Assoc String) where
  -- Each call that runs has read the map that is still there.
  Fresh : S → Runs → Type 0
  Fresh s [] = Unit
  Fresh s ((g, (c, raw)) ∷ ps) = (raw ≡ get_raw_data st as_value of_value (caller c) s) × Fresh s ps

  Fresh-after_end : (s : S) (g : ℕ) (ps : Runs) → Fresh s ps → Fresh s (after_end g ps)
  unfolding Fresh after_end
  Fresh-after_end s g [] f = f
  Fresh-after_end s g ((k, (c, raw)) ∷ ps) (here, f) = elim (Bool-cases (k == g)) [
    | inl q ↦ rw q f
    | inr q ↦ rw q (here, Fresh-after_end s g ps f)
  ]

  running-Fresh :
      (s : S) (g : ℕ) (ps : Runs) (c : Call) (raw : Assoc String)
      → running g ps ≡ some (c, raw)
      → Fresh s ps
      → raw ≡ get_raw_data st as_value of_value (caller c) s
  unfolding Fresh running
  running-Fresh s g [] c raw e f = cc
  running-Fresh s g ((k, (d, r)) ∷ ps) c raw e (here, f) = elim (Bool-cases (k == g)) [
    | inl q ↦
        let same : some (d, r) ≡ some (c, raw) = rw q at e in
        let reader : some d ≡ some c = ap call_of same in
        let copy : some r ≡ some raw = ap map_of same in
        let one : c ≡ d = cc in let other : raw ≡ r = cc in rw (one, other) here
    | inr q ↦ running-Fresh s g ps c raw (rw q at e) f
  ]

  Fresh-other :
      (i : String) (s t : S) (ps : Runs)
      → ((j : String)
          → str_eq i j ≡ false
          → get_raw_data st as_value of_value j t ≡ get_raw_data st as_value of_value j s)
      → idle i (forget ps) ≡ true
      → Fresh s ps
      → Fresh t ps
  unfolding Fresh idle
  Fresh-other i s t [] same h f = f
  Fresh-other i s t ((g, (c, raw)) ∷ ps) same h (here, f) = (
    here ∙ sym (same (caller c) (str_eq-swap (caller c) i (ground (arith, h)))),
    Fresh-other i s t ps same (ground (arith, h)) f,
  )

  write_back-call :
      (c : Call) (raw : Assoc String) (s : S)
      → raw ≡ get_raw_data st as_value of_value (caller c) s
      → write_back st as_value of_value c raw s ≡ call st as_value of_value c s
  unfolding write_back call Context.set Context.remove
  write_back-call (set i k v) raw s e = rw e refl
  write_back-call (remove i k) raw s e = rw e refl
  write_back-call (clear i) raw s e = refl

  module _ (sure : KeepsMaps st as_value of_value) where
    call-other :
        (c : Call) (s : S) (j : String)
        → st.has bucket_extension_storage s ≡ true
        → str_eq (caller c) j ≡ false
        → get_raw_data st as_value of_value j (call st as_value of_value c s)
          ≡ get_raw_data st as_value of_value j s
    unfolding call Context.set Context.remove Context.clear get_raw_data
    call-other (set i k v) s j h q =
        let (_, reads) =
          put_raw_data-reads st as_value of_value sure i
            (insert k v (get_raw_data st as_value of_value i s)) s h in
        reads j ∙ rw q refl
    call-other (remove i k) s j h q =
        let (_, reads) =
          put_raw_data-reads st as_value of_value sure i
            (without k (get_raw_data st as_value of_value i s)) s h in
        reads j ∙ rw q refl
    call-other (clear i) s j h q =
        let (t, done) = sure.deletes_some i s in
        rw (call, Context.clear, get_raw_data, done) (delete_reads t done)
      where
        delete_reads :
            (t : S)
            → st.deletes bucket_extension_storage i s ≡ some t
            → data_of st as_value of_value (st.reads bucket_extension_storage j t)
              ≡ data_of st as_value of_value (st.reads bucket_extension_storage j s)
        delete_reads t done =
            let law = st.reads-deletes bucket_extension_storage i bucket_extension_storage j done in
            rw (law, q) refl

    -- What holds between two events.
    record Good (w : Scripts S) (m : Values) : Type 0 where
      shows : ShowsValues st as_value of_value w.stored m
      fresh : Fresh w.stored w.runs
      differ : distinct w.runs ≡ true

    ends-Good :
        (g : ℕ) (w : Scripts S) (m : Values)
        → Good w m
        → Good (event st as_value of_value (ends g) w) (meant_end (call_of (running g w.runs)) m)
    unfolding event
    ends-Good g w m h = elim (Option-cases (running g w.runs)) [
      | inl q ↦ rw q (record {
        shows = h.shows;
        fresh = Fresh-after_end w.stored g w.runs h.fresh;
        differ = distinct-after_end g w.runs h.differ;
      })
      | inr ((c, raw), q) ↦
          let same =
            write_back-call c raw w.stored (running-Fresh w.stored g w.runs c raw q h.fresh) in
          rw (q, same)
            (record {
              shows = call-ShowsValues st as_value of_value sure c w.stored m h.shows;
              fresh =
                  Fresh-other (caller c) w.stored (call st as_value of_value c w.stored)
                    (after_end g w.runs) (λ j r. call-other c w.stored j h.shows.bucket r)
                    (others-idle g w.runs c raw q h.differ)
                    (Fresh-after_end w.stored g w.runs h.fresh);
              differ = distinct-after_end g w.runs h.differ;
            })
    ]

    begins-Good :
        (g : ℕ) (c : Call) (w : Scripts S) (m : Values)
        → Good w m
        → idle (caller c) (forget w.runs) ≡ true
        → Good (event st as_value of_value (begins g c) w) m
    unfolding event Fresh distinct
    begins-Good g c w m h free = record {
      shows = h.shows;
      fresh = (refl, h.fresh);
      differ = ground (arith, free, h.differ);
    }

    events-Good :
        (es : List CallEvent) (w : Scripts S) (m : Values)
        → Good w m
        → apart es (forget w.runs) ≡ true
        → ShowsValues st as_value of_value
            (events st as_value of_value es w).stored
            (meant_events es (forget w.runs) m)
    unfolding events event apart meant_events
    events-Good [] w m h a = h.shows
    events-Good (begins g c ∷ es) w m h a =
        events-Good es (event st as_value of_value (begins g c) w) m
          (begins-Good g c w m h (ground (arith, a))) (ground (arith, a))
    events-Good (ends g ∷ es) w m h a =
        rw (running-forget g w.runs, after_end-forget g w.runs)
          (events-Good es (event st as_value of_value (ends g) w)
            (meant_end (call_of (running g w.runs)) m) (ends-Good g w m h)
            (rw (after_end-forget g w.runs) at a))

    -- Scripts call Set, Remove and Clear in several goroutines; a call begins with the reading of
    -- the extension's map and ends with the writing, and the events of the goroutines come in any
    -- order, where no call of an extension begins while one of the same extension runs. In a
    -- storage that does not fail and keeps maps, Get then gives each extension the values that its
    -- own calls leave, by key, in the order in which they end, if it gave the values before: no
    -- extension changes those of another, also where their calls overlap.
    pub events-ShowsValues :
        (es : List CallEvent) (s : S) (m : Values)
        → ShowsValues st as_value of_value s m
        → apart es [] ≡ true
        → ShowsValues st as_value of_value
            (events st as_value of_value es (record { stored = s; runs = [] })).stored
            (meant_events es [] m)
    unfolding events Fresh distinct
    events-ShowsValues es s m h a =
        events-Good es (record { stored = s; runs = [] }) m
          (record { shows = h; fresh = record {}; differ = refl }) a
