-- ===== src/Rest/Creation.antt =====
-- pkg/rest/api.go: the requests that resolve and create tasks, over the resolved fetchers and the tasks of
-- `Download.Create`. A body that cannot be decoded is `none`, and so is a nil request in it; the IDs that
-- are drawn come with a request. A panic ends a request only.
use Prim.Native.String.{String}
use text.Mathlib.Text.{◌==◌ as str_eq}
use gopeed_torbox.Base.{Bool, true, false, Option, none, some, List, [], ◌∷◌, if◌then◌else◌}
use gopeed_torbox.Download.Create.{
  TaskOptions, Session, Result, ok, failed, ResolveResult, resolve, create, create_direct,
  create_direct_batch,
}
use gopeed_torbox.Rest.Api.{RespCode, code_error, code_invalid_param}

-- An element of a batch: the ID of its task, its URL, and its options.
abbrev pub RequestItem : Type 0
RequestItem = String × Option String × Option TaskOptions

-- pkg/rest/model/task.go
pub record CreateBody : Type 0 where
  pub rid : String
  pub req : Option String
  pub opts : Option TaskOptions

pub record ResolveBody : Type 0 where
  pub req : Option String
  pub opts : Option TaskOptions

pub record BatchBody : Type 0 where
  pub reqs : List RequestItem
  pub opts : Option TaskOptions

pub data CreationRequest : Type 0 where
  resolve_request : String → Option ResolveBody → CreationRequest
  create_request : String → Option CreateBody → CreationRequest
  batch_request : Option BatchBody → CreationRequest

pub data CreationAnswer (R : Type 0) : Type 0 where
  panicked : CreationAnswer R
  refused : RespCode → CreationAnswer R
  resolved : ResolveResult R → CreationAnswer R
  task_id : String → CreationAnswer R
  task_ids : List String → CreationAnswer R

-- The elements before the first one with a nil request, and whether there is such a one.
unfoldable pub before_nil : List RequestItem → List (String × String × Option TaskOptions) × Bool
before_nil [] = ([], false)
before_nil ((i, none, opts) ∷ items) = ([], true)
before_nil ((i, some url, opts) ∷ items) =
    let rest = before_nil items in ((i, url, opts) ∷ rest.0, rest.1)

module _ {F R : Type 0} where
  abbrev pub resolved_answer : Result (ResolveResult R) × Session F → CreationAnswer R × Session F
  resolved_answer (ok r, s) = (resolved r, s)
  resolved_answer (failed, s) = (refused code_error, s)

  abbrev pub created_answer : Result String × Session F → CreationAnswer R × Session F
  created_answer (ok i, s) = (task_id i, s)
  created_answer (failed, s) = (refused code_error, s)

  abbrev pub batch_answer : Bool → Result (List String) × Session F → CreationAnswer R × Session F
  batch_answer nil_met (failed, s) = (refused code_error, s)
  batch_answer true (ok is, s) = (panicked, s)
  batch_answer false (ok is, s) = (task_ids is, s)

-- The first four arguments are those of `resolve`, and `puts` and `restores` those of `create`.
module _ {F R : Type 0} (on_resolve : String → Result (Option R))
    (build_fetcher : String → Option F) (resolve_fetcher : F → TaskOptions → Option (F × R))
    (options : Option TaskOptions → Option TaskOptions) (puts restores : String → Bool) where
  unfoldable pub serve_resolve :
      String → Option String → Option TaskOptions → Session F → CreationAnswer R × Session F
  unfolding resolve
  serve_resolve i none opts s = (panicked, s)
  serve_resolve i (some url) opts s =
      resolved_answer (resolve on_resolve build_fetcher resolve_fetcher options i url opts s)

  abbrev pub direct_or :
      String → CreateBody → Option String → Session F → CreationAnswer R × Session F
  unfolding create_direct
  direct_or i b none s = (refused code_invalid_param, s)
  direct_or i b (some url) s =
      created_answer (create_direct build_fetcher puts restores options i url b.opts s)

  unfoldable pub serve_create : String → CreateBody → Session F → CreationAnswer R × Session F
  unfolding direct_or create
  serve_create i b s =
      if str_eq b.rid ""
      then direct_or i b b.req s
      else created_answer (create build_fetcher puts restores options b.rid i s)

  unfoldable pub serve_batch :
      List RequestItem → Option TaskOptions → Session F → CreationAnswer R × Session F
  unfolding before_nil create_direct_batch
  serve_batch [] opts s = (refused code_invalid_param, s)
  serve_batch (item ∷ items) opts s =
      let given = before_nil (item ∷ items) in
      batch_answer given.1 (create_direct_batch build_fetcher puts restores options opts given.0 s)

  unfoldable pub serve_creation : CreationRequest → Session F → CreationAnswer R × Session F
  unfolding serve_resolve serve_create serve_batch
  serve_creation (resolve_request i none) s = (refused code_error, s)
  serve_creation (resolve_request i (some b)) s = serve_resolve i b.req b.opts s
  serve_creation (create_request i none) s = (refused code_error, s)
  serve_creation (create_request i (some b)) s = serve_create i b s
  serve_creation (batch_request none) s = (refused code_error, s)
  serve_creation (batch_request (some b)) s = serve_batch b.reqs b.opts s

  unfoldable pub serve_creations : List CreationRequest → Session F → Session F
  unfolding serve_creation
  serve_creations [] s = s
  serve_creations (q ∷ qs) s = serve_creations qs (serve_creation q s).1
