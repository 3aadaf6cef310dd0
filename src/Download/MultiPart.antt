-- ===== src/Download/MultiPart.antt =====
-- pkg/download/downloader.go: the extraction of archives that come in several parts, each the file
-- of a task. `enqueueMultiPartExtraction` runs for a part behind the report that it is downloaded.
-- A part is its task's ID, the base name of the archive that its path gives, and its statuses.
pub mod Once
use Prim.Native.String.{String}
use text.Mathlib.Text.{◌==◌ as str_eq}
use gopeed_torbox.Base.{
  ℕ, Bool, true, false, not, ◌&&◌, ◌||◌, Option, none, some, List, [], ◌∷◌, ◌++◌, if◌then◌else◌,
}

pub data ExtractStatus : Type 0 where
  no_extract queued waiting_parts extract_done : ExtractStatus

pub record Part : Type 0 where
  pub id : String
  pub base_name : String
  pub downloaded : Bool
  pub extract_status : ExtractStatus

-- `claims` has the base names of `claimedExtractions`, and `jobs` those whose extraction is queued or
-- runs.
pub record Archives : Type 0 where
  pub parts : List Part
  pub claims : List String
  pub jobs : List String

unfoldable pub has_name : String → List String → Bool
has_name b [] = false
has_name b (c ∷ cs) = str_eq c b || has_name b cs

-- The parts that belong to an archive: whether there is one, and whether all are downloaded.
unfoldable pub any_related : String → List Part → Bool
any_related b [] = false
any_related b (p ∷ ps) = str_eq p.base_name b || any_related b ps

unfoldable pub none_missing : String → List Part → Bool
none_missing b [] = true
none_missing b (p ∷ ps) = (if str_eq p.base_name b then p.downloaded else true) && none_missing b ps

unfoldable pub check_all_multi_part_tasks_done : String → List Part → Bool
unfolding any_related none_missing
check_all_multi_part_tasks_done b ps = any_related b ps && none_missing b ps

unfoldable pub check_multi_part_archive_ready : String → List Part → Bool
unfolding check_all_multi_part_tasks_done
check_multi_part_archive_ready b ps =
    if str_eq b "" then true else check_all_multi_part_tasks_done b ps

-- `LoadOrStore`: the claims, and whether this call made one.
unfoldable pub try_claim_multi_part_extraction : String → List String → List String × Bool
unfolding has_name
try_claim_multi_part_extraction b cs = if has_name b cs then (cs, false) else (cs ++ b ∷ [], true)

unfoldable pub put_extract_status : String → ExtractStatus → List Part → List Part
put_extract_status i s [] = []
put_extract_status i s (p ∷ ps) =
    if str_eq p.id i then record p { extract_status = s } ∷ ps else p ∷ put_extract_status i s ps

unfoldable pub claim_part : Part → Archives → Archives
unfolding try_claim_multi_part_extraction put_extract_status
claim_part p a =
    let claim = try_claim_multi_part_extraction p.base_name a.claims in
    if claim.1
    then record a {
      parts = put_extract_status p.id queued a.parts;
      claims = claim.0;
      jobs = a.jobs ++ p.base_name ∷ [];
    }
    else record a { parts = put_extract_status p.id extract_done a.parts; claims = claim.0 }

unfoldable pub enqueue_multi_part_extraction : Part → Archives → Archives
unfolding check_multi_part_archive_ready claim_part
enqueue_multi_part_extraction p a =
    if check_multi_part_archive_ready p.base_name a.parts
    then claim_part p a
    else record a { parts = put_extract_status p.id waiting_parts a.parts }

-- `watch` first puts the task's status, here of the first part with the ID.
unfoldable pub finish_part : String → List Part → List Part
finish_part i [] = []
finish_part i (p ∷ ps) =
    if str_eq p.id i then record p { downloaded = true } ∷ ps else p ∷ finish_part i ps

-- The end of `performMultiPartExtraction`: the job is over and the claim released.
unfoldable pub without_name : String → List String → List String
without_name b [] = []
without_name b (c ∷ cs) = if str_eq c b then cs else c ∷ without_name b cs

unfoldable pub release_multi_part_extraction_claim : String → Archives → Archives
unfolding without_name
release_multi_part_extraction_claim b a = record a {
  claims = without_name b a.claims;
  jobs = without_name b a.jobs;
}

pub data Event : Type 0 where
  added checked : Part → Event
  arrived extracted : String → Event

unfoldable pub on_event : Event → Archives → Archives
unfolding enqueue_multi_part_extraction finish_part release_multi_part_extraction_claim
on_event (added p) a = record a { parts = a.parts ++ p ∷ [] }
on_event (arrived i) a = record a { parts = finish_part i a.parts }
on_event (extracted b) a = release_multi_part_extraction_claim b a
on_event (checked p) a = enqueue_multi_part_extraction p a

unfoldable pub on_events : List Event → Archives → Archives
unfolding on_event
on_events [] a = a
on_events (e ∷ es) a = on_events es (on_event e a)
