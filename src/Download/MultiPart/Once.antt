-- ===== src/Download/MultiPart/Once.antt =====
-- pkg/download/downloader.go: how often the extraction of an archive is queued, and when.
use Prim.Native.String.{String}
use text.Mathlib.Text.{◌==◌ as str_eq}
use text.Mathlib.TextPositions.{eq_refl}
use text.Mathlib.TextEquality.{eq_iff}
use gopeed_torbox.Base.{
  ℕ, ◌+◌, ◌≤◌, ◌≡◌, sym, ap, refl, subst, ◌⊎◌, inl, inr, true, false, List, [], ◌∷◌, ◌++◌,
  if◌then◌else◌, sum_of, sum_of-append, Bool-cases, arith,
}
use gopeed_torbox.Download.MultiPart.{
  Part, Archives, Event, added, arrived, checked, extracted, has_name, without_name,
  release_multi_part_extraction_claim, try_claim_multi_part_extraction, claim_part,
  enqueue_multi_part_extraction, check_multi_part_archive_ready, on_event, on_events,
}

-- How often a name is on a list.
unfoldable pub name_count : String → List String → ℕ
name_count b cs = sum_of (λ c. if str_eq c b then 1 else 0) cs

-- Every claim has led to one job, and no name is claimed twice.
abbrev pub Once : Archives → Type 0
Once a = (a.jobs ≡ a.claims) × ((b : String) → name_count b a.claims ≤ 1)

absent-count : (b : String) (cs : List String) → has_name b cs ≡ false → name_count b cs ≡ 0
unfolding has_name name_count
absent-count b [] h = refl
absent-count b (c ∷ cs) h = ground (arith, absent-count b cs)

name_count-append :
    (b c : String) (cs : List String)
    → name_count b (cs ++ c ∷ []) ≡ name_count b cs + (if str_eq c b then 1 else 0)
unfolding name_count
name_count-append b c cs =
    omega (arith, sum_of-append (λ d. if str_eq d b then 1 else 0) cs (c ∷ []))

name_count-append-le :
    (b c : String) (cs : List String)
    → has_name c cs ≡ false
    → name_count b cs ≤ 1
    → name_count b (cs ++ c ∷ []) ≤ 1
name_count-append-le b c cs h l = elim (Bool-cases (str_eq c b)) [
  | inl e ↦
      let same : has_name b cs ≡ false = subst (λ d. has_name d cs ≡ false) ((eq_iff c b).0 e) h in
      ground (arith, name_count-append b c cs, absent-count b cs same)
  | inr e ↦ ground (arith, name_count-append b c cs)
]

count_without :
    (b c : String) (cs : List String) → name_count b (without_name c cs) ≤ name_count b cs
unfolding name_count without_name
count_without b c [] = omega arith
count_without b c (d ∷ ds) = ground (arith, count_without b c ds)

claim-Once : (p : Part) (a : Archives) → Once a → Once (claim_part p a)
unfolding claim_part try_claim_multi_part_extraction
claim-Once p a (e, l) = elim (Bool-cases (has_name p.base_name a.claims)) [
  | inl h ↦ simp h (e, l)
  | inr h ↦ simp h (
    ap (λ cs. cs ++ p.base_name ∷ []) e,
    λ b. name_count-append-le b p.base_name a.claims h (l b),
  )
]

enqueue-Once : (p : Part) (a : Archives) → Once a → Once (enqueue_multi_part_extraction p a)
unfolding enqueue_multi_part_extraction
enqueue-Once p a o = elim (Bool-cases (check_multi_part_archive_ready p.base_name a.parts)) [
  | inl r ↦ simp r (claim-Once p a o)
  | inr r ↦ simp r o
]

event-Once : (e : Event) (a : Archives) → Once a → Once (on_event e a)
unfolding on_event release_multi_part_extraction_claim
event-Once (added p) a o = o
event-Once (arrived i) a o = o
event-Once (extracted c) a (e, l) =
    (ap (without_name c) e, λ b. omega (arith, count_without b c a.claims, l b))
event-Once (checked p) a o = enqueue-Once p a o

-- After any sequence of new parts, downloads, checks and ends of extractions, every claim has one
-- job and no archive has two, if that was so before.
pub events-Once : (es : List Event) (a : Archives) → Once a → Once (on_events es a)
unfolding on_events
events-Once [] a o = o
events-Once (e ∷ es) a o = events-Once es (on_event e a) (event-Once e a o)

claimed-count : (b : String) (cs : List String) → has_name b cs ≡ true → 1 ≤ name_count b cs
unfolding has_name name_count
claimed-count b [] h = cc
claimed-count b (c ∷ cs) h = ground (arith, claimed-count b cs)

count_last : (b : String) (cs : List String) → 1 ≤ name_count b (cs ++ b ∷ [])
count_last b cs = ground (arith, name_count-append b b cs, eq_refl b)

claim-count : (p : Part) (a : Archives) → Once a → 1 ≤ name_count p.base_name (claim_part p a).jobs
unfolding claim_part try_claim_multi_part_extraction
claim-count p a (e, l) = elim (Bool-cases (has_name p.base_name a.claims)) [
  | inl h ↦ simp (h, e) (claimed-count p.base_name a.claims h)
  | inr h ↦ simp h (count_last p.base_name a.jobs)
]

-- When a part is checked and its archive is ready, exactly one extraction of that archive is
-- queued or runs afterwards; when it is not ready, the check queues nothing. Before, every claim
-- must have one job and no archive two.
pub check-jobs :
    (p : Part) (a : Archives)
    → Once a
    → ((check_multi_part_archive_ready p.base_name a.parts ≡ true)
        × (name_count p.base_name (enqueue_multi_part_extraction p a).jobs ≡ 1))
      ⊎ ((check_multi_part_archive_ready p.base_name a.parts ≡ false)
          × ((enqueue_multi_part_extraction p a).jobs ≡ a.jobs))
unfolding enqueue_multi_part_extraction
check-jobs p a o = elim (Bool-cases (check_multi_part_archive_ready p.base_name a.parts)) [
  | inl r ↦
      let (same, once) = claim-Once p a o in
      let most = subst (λ cs. name_count p.base_name cs ≤ 1) (sym same) (once p.base_name) in
      inl (r, simp r (omega (arith, most, claim-count p a o)))
  | inr r ↦ inr (r, simp r refl)
]
