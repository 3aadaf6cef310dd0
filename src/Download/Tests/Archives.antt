-- ===== src/Download/Tests/Archives.antt =====
-- Examples for archives of several parts.
use Prim.Native.String.{String}
use gopeed_torbox.Base.{refl, true, false, List, [], ◌∷◌, arith}
use gopeed_torbox.Download.MultiPart.{
  Part, Archives, Event, no_extract, added, arrived, checked, extracted, on_events,
}
use gopeed_torbox.Download.MultiPart.Once.{Once, name_count, events-Once}

abbrev part : String → Part
part i = record { id = i; base_name = "x.7z"; downloaded = false; extract_status = no_extract }

abbrev no_archives : Archives
no_archives = record { parts = []; claims = []; jobs = [] }

no_archives-Once : Once no_archives
unfolding name_count
no_archives-Once = (refl, λ b. omega arith)

abbrev two_parts : List Event
two_parts =
    added (part "1")
    ∷ added (part "2")
    ∷ arrived "1"
    ∷ checked (part "1")
    ∷ arrived "2"
    ∷ checked (part "2")
    ∷ extracted "x.7z"
    ∷ []

events-Once_example : Once (on_events two_parts no_archives)
events-Once_example = events-Once two_parts no_archives no_archives-Once

-- Both parts are downloaded.
abbrev both_downloaded : Archives
both_downloaded = record {
  parts = record (part "1") { downloaded = true } ∷ record (part "2") { downloaded = true } ∷ [];
  claims = [];
  jobs = [];
}

both_downloaded-Once : Once both_downloaded
unfolding name_count
both_downloaded-Once = (refl, λ b. omega arith)
