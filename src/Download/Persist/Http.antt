-- ===== src/Download/Persist/Http.antt =====
-- internal/protocol/http/fetcher_manager.go and `Setup` in fetcher.go: the saving and the restoring of
-- an HTTP fetcher. The calls that read the extra part of the request and the options from JSON are
-- parameters.
use Prim.Native.String.{String}
use text.Mathlib.Text.{◌==◌ as str_eq}
use text.Mathlib.TextEquality.{eq_iff}
use gopeed_torbox.Base.{
  ℕ, ◌≡◌, refl, ◌∙◌, ap, true, Option, none, some, List, [], ◌∷◌, map, arith, if◌then◌else◌,
}
use gopeed_torbox.Http.Chunk.{Connection, FetcherState, idle, resolved}
use gopeed_torbox.Http.Resume.{resumed}
use gopeed_torbox.Http.Restart.{persisted, restarted, restarted-Inv}
use gopeed_torbox.Http.Transfer.{World, Reach, resting}
use gopeed_torbox.Http.Transfer.Invariant.{Inv}
use gopeed_torbox.Download.Storage.Interface.{Storage}
use gopeed_torbox.Download.Persist.{
  FetcherMeta, SavedTask, Value, fetcher_data, FetcherManager, bucket_task, bucket_save, save_task,
  rebuilt, restore_fetcher, fill_meta,
}
use gopeed_torbox.Download.Persist.Laws.{saved-data, restored}

pub record FetcherData : Type 0 where
  pub connections : List Connection
  pub redirect_url : String

-- The fields of `Fetcher` that are saved, restored, or set up.
pub record Fetcher (Req Res Opts : Type 0) : Type 0 where
  pub meta : FetcherMeta Req Res Opts
  pub connections : List Connection
  pub redirect_url : String
  pub state : FetcherState

-- What JSON keeps of the data.
unfoldable pub persisted_data : FetcherData → FetcherData
persisted_data d = record d { connections = map persisted d.connections }

abbrev pub restore_connections : List Connection → List Connection → List Connection
restore_connections old [] = old
restore_connections old (c ∷ cs) = c ∷ cs

abbrev pub restore_redirect : String → String → String
restore_redirect old u = if str_eq u "" then old else u

abbrev pub parsed {ℓ} : {A : Type ℓ} → (A → A) → Option A → Option A
parsed p none = none
parsed p (some a) = some (p a)

restore_connections_nil : (cs : List Connection) → restore_connections [] cs ≡ cs
restore_connections_nil [] = refl
restore_connections_nil (c ∷ cs) = refl

restore_redirect_empty : (u : String) → restore_redirect "" u ≡ u
restore_redirect_empty u = ground (arith, eq_iff u "")

module _ {Req Res Opts : Type 0} where
  unfoldable pub build : Fetcher Req Res Opts
  build = record {
    meta = record { req = none; res = none; opts = none };
    connections = [];
    redirect_url = "";
    state = idle;
  }

  unfoldable pub set_up_fetcher : Fetcher Req Res Opts → Fetcher Req Res Opts
  set_up_fetcher f = record f { state = elim f.meta.res [ none ↦ idle | some r ↦ resolved ] }

  unfoldable pub store : Fetcher Req Res Opts → FetcherData
  store f = record { connections = f.connections; redirect_url = f.redirect_url }

module _ {Req Res Opts : Type 0} (parse_req : Req → Req) (parse_opts : Opts → Opts) where
  unfoldable pub restore :
      FetcherMeta Req Res Opts → Option FetcherData → Option (Fetcher Req Res Opts)
  unfolding build
  restore meta none = none
  restore meta (some d) =
      let f : Fetcher Req Res Opts = build in
      some (record f {
        meta = record meta { req = parsed parse_req meta.req; opts = parsed parse_opts meta.opts };
        connections = restore_connections f.connections d.connections;
        redirect_url = restore_redirect f.redirect_url d.redirect_url;
      })

  unfoldable pub http_manager :
      FetcherManager (Fetcher Req Res Opts) FetcherData (FetcherMeta Req Res Opts)
  unfolding store restore build set_up_fetcher
  http_manager = record {
    store = λ f. some (store f);
    blank = some (record { connections = []; redirect_url = "" });
    rebuild = restore;
    build = build;
    set_up = set_up_fetcher;
    meta_of = λ f. f.meta;
    with_meta = λ m f. record f { meta = m };
  }

  rebuilt-fields :
      {S : Type 0} (st : Storage S (Value FetcherData (FetcherMeta Req Res Opts)))
      (meta : FetcherMeta Req Res Opts) (d : FetcherData)
      → ((rebuilt st http_manager meta (some d)).connections ≡ d.connections)
        × ((rebuilt st http_manager meta (some d)).redirect_url ≡ d.redirect_url)
  unfolding rebuilt http_manager restore set_up_fetcher build fill_meta
  rebuilt-fields st meta d =
      (restore_connections_nil d.connections, restore_redirect_empty d.redirect_url)

  module _ {S : Type 0} (st : Storage S (Value FetcherData (FetcherMeta Req Res Opts)))
      (json : (d : FetcherData) → st.keeps (fetcher_data d) ≡ fetcher_data (persisted_data d)) where
    -- If a task and its HTTP fetcher are saved and the fetcher is restored, both without error, in
    -- any storage that has both buckets and keeps the data as JSON does, then the fetcher has the
    -- connections as JSON keeps them and the saved redirect URL, and nothing is saved for the task
    -- any more.
    pub restore_fetcher-save_task :
        (t : SavedTask (FetcherMeta Req Res Opts)) (f g : Fetcher Req Res Opts) {s u v : S}
        → st.has bucket_save s ≡ true
        → st.has bucket_task s ≡ true
        → save_task st http_manager t f s ≡ (true, u)
        → restore_fetcher st http_manager t.id t.meta u ≡ some (g, v)
        → (g.connections ≡ map persisted f.connections)
          × (g.redirect_url ≡ f.redirect_url)
          × (st.reads bucket_save t.id v ≡ none)
    unfolding http_manager store persisted_data
    restore_fetcher-save_task t f g h k save run =
        let d = store f in
        let read = saved-data st http_manager t f d refl h k save ∙ ap some (json d) in
        let (q, gone) = restored st http_manager t.id t.meta _ (persisted_data d) refl read run in
        let (c, r) = rebuilt-fields st t.meta (persisted_data d) in
        (ap (λ x. x.connections) q ∙ c, ap (λ x. x.redirect_url) q ∙ r, gone)

    -- Save the fetcher of a download at a moment at which the transfer invariant holds, with all
    -- its connections read at that one moment, so that no goroutine changes them while they are
    -- written as JSON, in a storage that keeps its data as JSON does and has both buckets; let the
    -- download go on in any way, and restore the fetcher with no error from what was saved: the
    -- world in which its connections are resumed, over the file as it is then, has the transfer
    -- invariant.
    pub restored-Inv :
        (remote : ℕ → ℕ) (size : ℕ) {w x : World} (t : SavedTask (FetcherMeta Req Res Opts))
        (f g : Fetcher Req Res Opts) {s u v : S}
        → Reach remote w x
        → Inv remote size w
        → f.connections ≡ w.conns
        → st.has bucket_save s ≡ true
        → st.has bucket_task s ≡ true
        → save_task st http_manager t f s ≡ (true, u)
        → restore_fetcher st http_manager t.id t.meta u ≡ some (g, v)
        → Inv remote size
            (resumed (record { conns = g.connections; locals = λ _. resting; file = x.file }))
    unfolding restarted
    restored-Inv remote size {w} {x} t f g run inv e h k save restore =
        let (c, _, _) = restore_fetcher-save_task t f g h k save restore in
        rw (c, e) (restarted-Inv remote size run inv)
