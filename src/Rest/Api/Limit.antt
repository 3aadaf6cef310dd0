-- ===== src/Rest/Api/Limit.antt =====
-- pkg/rest/api.go: the requests as operations of the downloader.
use Prim.Native.String.{String}
use gopeed_torbox.Base.{◌≡◌, refl, Bool, none, some, List, [], ◌∷◌, subst, sym, arith}
use gopeed_torbox.Download.Task.{TaskFilter}
use gopeed_torbox.Download.Scheduler.{Downloader}
use gopeed_torbox.Download.Operations.{Op, paused, continued, deleted, step, run}
use gopeed_torbox.Download.Operations.Limit.{Within, run-Within}
use gopeed_torbox.Rest.Api.{
  ApiRequest, pause_one, continue_one, delete_one, get_one, pause_many, continue_many, delete_many,
  get_many, Parsed, parse_id_filter, parse_filter, pause_with, continue_with, delete_with, get_with,
  serve, serve_all,
}

abbrev op_of : (TaskFilter → Op) → Parsed → List Op
op_of op (none, c) = []
op_of op (some f, c) = op f ∷ []

-- The operations that a request stands for: none, if it reads or is not valid.
unfoldable pub ops_of : ApiRequest → List Op
ops_of (pause_one i) = op_of paused (parse_id_filter i)
ops_of (pause_many f) = op_of paused (parse_filter f)
ops_of (continue_one i) = op_of continued (parse_id_filter i)
ops_of (continue_many f) = op_of continued (parse_filter f)
ops_of (delete_one i) = op_of deleted (parse_id_filter i)
ops_of (delete_many f) = op_of deleted (parse_filter f)
ops_of (get_one i) = []
ops_of (get_many f) = []

module _ (restores : String → Bool) where
  pause_with-run :
      (p : Parsed) (d : Downloader) → (pause_with restores p d).0 ≡ run restores (op_of paused p) d
  unfolding run step
  pause_with-run (none, c) d = refl
  pause_with-run (some f, c) d = refl

  continue_with-run :
      (p : Parsed) (d : Downloader)
      → (continue_with restores p d).0 ≡ run restores (op_of continued p) d
  unfolding run step
  continue_with-run (none, c) d = refl
  continue_with-run (some f, c) d = refl

  delete_with-run :
      (p : Parsed) (d : Downloader)
      → (delete_with restores p d).0 ≡ run restores (op_of deleted p) d
  unfolding run step
  delete_with-run (none, c) d = refl
  delete_with-run (some f, c) d = refl

  get_with-run : (p : Parsed) (d : Downloader) → (get_with restores p d).0 ≡ d
  get_with-run (none, c) d = refl
  get_with-run (some f, c) d = refl

  serve-run : (r : ApiRequest) (d : Downloader) → (serve restores r d).0 ≡ run restores (ops_of r) d
  unfolding serve ops_of run
  serve-run (pause_one i) d = pause_with-run (parse_id_filter i) d
  serve-run (pause_many f) d = pause_with-run (parse_filter f) d
  serve-run (continue_one i) d = continue_with-run (parse_id_filter i) d
  serve-run (continue_many f) d = continue_with-run (parse_filter f) d
  serve-run (delete_one i) d = delete_with-run (parse_id_filter i) d
  serve-run (delete_many f) d = delete_with-run (parse_filter f) d
  serve-run (get_one i) d = ground arith
  serve-run (get_many f) d = get_with-run (parse_filter f) d

  -- After any series of REST requests that pause, continue, delete or read tasks, one by one or by
  -- a filter, at most `MaxRunning` tasks run, if that was so before.
  pub serve_all-Within :
      (rs : List ApiRequest) (d : Downloader) → Within d → Within (serve_all restores rs d)
  unfolding serve_all
  serve_all-Within [] d h = h
  serve_all-Within (r ∷ rs) d h =
      serve_all-Within rs (serve restores r d).0
        (subst Within (sym (serve-run r d)) (run-Within restores (ops_of r) d h))
