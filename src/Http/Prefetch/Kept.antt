-- ===== src/Http/Prefetch/Kept.antt =====
-- internal/protocol/http/fetcher.go: the bytes that `asyncPrefetch` keeps.
use gopeed_torbox.Base.{
  ℕ, ◌+◌, ◌≡◌, ◌⊎◌, subst, refl, sym, ap, ◌∙◌, Bool, true, false, Option, none, some, List, [], ◌∷◌,
  ◌++◌, length, take, Bool-cases, inl, inr, append_assoc, append-nil, arith, length-append,
}
use gopeed_torbox.Http.Prefetch.{
  Prefetch, Round, ReadEnd, no_error, eof, read_error, prefetch_round, prefetch_loop,
  async_prefetch, no_prefetch, after_read, write_read,
}

-- The bytes of the response, as far as the rounds bring them.
unfoldable pub received : List Round → List ℕ
received [] = []
received (r ∷ rs) = r.bytes ++ received rs

-- The file begins with the first bytes of the response, as many as are counted.
abbrev pub BeginsWith : Prefetch → List ℕ → Type 0
BeginsWith p body =
    (first : List ℕ) × (extra : List ℕ) × (rest : List ℕ) × (p.temp_file ≡ first ++ extra)
    × (body ≡ first ++ rest)
    × (p.prefetch_size ≡ length first)

-- The file has exactly the bytes of the response, and all are counted.
abbrev pub Whole : Prefetch → List ℕ → Type 0
Whole p body = (p.temp_file ≡ body) × (p.prefetch_size ≡ length body)

Whole-BeginsWith : (p : Prefetch) (body more : List ℕ) → Whole p body → BeginsWith p (body ++ more)
Whole-BeginsWith p body more (f, n) = (body, [], more, f ∙ sym (append-nil body), refl, n)

after_read-Whole :
    (end : ReadEnd) (p : Prefetch) (body : List ℕ) → Whole p body → Whole (after_read end p).0 body
after_read-Whole no_error p body w = w
after_read-Whole eof p body w = w
after_read-Whole read_error p body w = w

-- Either all that was read is kept, or the loop ends and the file begins with the response.
abbrev Kept : Prefetch × Bool → List ℕ → List ℕ → Type 0
Kept (q, goes_on) body bytes =
    Whole q (body ++ bytes) ⊎ ((goes_on ≡ false) × ((more : List ℕ) → BeginsWith q (body ++ more)))

write_read-Kept :
    (bytes : List ℕ) (error : Option ℕ) (end : ReadEnd) (p : Prefetch) (body : List ℕ)
    → Whole p body
    → Kept (write_read bytes error end p) body bytes
write_read-Kept [] error end p body w = inl (
    subst (λ s. Whole (after_read end p).0 s) (sym (append-nil body))
      (after_read-Whole end p body w))
write_read-Kept (b ∷ bs) none end p body (f, n) = inl (
    after_read-Whole end
      (record p {
        temp_file = p.temp_file ++ b ∷ bs;
        prefetch_size = p.prefetch_size + length (b ∷ bs);
      })
      (body ++ b ∷ bs) (ap (λ s. s ++ b ∷ bs) f, omega (arith, n, length-append body (b ∷ bs))))
write_read-Kept (b ∷ bs) (some k) end p body (f, n) =
    inr (refl, λ more. (body, take k (b ∷ bs), more, ap (λ s. s ++ take k (b ∷ bs)) f, refl, n))

prefetch_round-Kept :
    (p : Prefetch) (r : Round) (body : List ℕ)
    → Whole p body
    → Kept (prefetch_round p r) body r.bytes
unfolding prefetch_round
prefetch_round-Kept p r body w = elim (Bool-cases r.stopped) [
  | inl q ↦ rw q (inr (refl, λ more. Whole-BeginsWith p body more w))
  | inr q ↦ rw q (write_read-Kept r.bytes r.write_error r.read_end p body w)
]

prefetch_loop-BeginsWith :
    (rounds : List Round) (p : Prefetch) (body : List ℕ)
    → Whole p body
    → BeginsWith (prefetch_loop p rounds) (body ++ received rounds)
unfolding prefetch_loop received
prefetch_loop-BeginsWith [] p body w = Whole-BeginsWith p body [] w
prefetch_loop-BeginsWith (r ∷ rs) p body w =
    let next = prefetch_round p r in
    let assoc = append_assoc body r.bytes (received rs) in
    elim (prefetch_round-Kept p r body w) [
      | inr (ends, begins) ↦ rw ends (begins (r.bytes ++ received rs))
      | inl whole ↦ elim (Bool-cases next.1) [
        | inl go ↦ rw go (
            subst (λ s. BeginsWith (prefetch_loop next.0 rs) s) assoc
              (prefetch_loop-BeginsWith rs next.0 (body ++ r.bytes) whole))
        | inr stop ↦ rw stop (
            subst (λ s. BeginsWith next.0 s) assoc
              (Whole-BeginsWith next.0 (body ++ r.bytes) (received rs) whole))
      ]
    ]

-- Whatever the reads and writes of the prefetch do, and however many rounds it has made, the
-- temporary file begins with the first bytes of the response, as many as are counted.
pub async_prefetch-BeginsWith :
    (has_response created : Bool) (rounds : List Round)
    → BeginsWith (async_prefetch has_response created rounds) (received rounds)
unfolding async_prefetch
async_prefetch-BeginsWith true true rounds =
    prefetch_loop-BeginsWith rounds no_prefetch [] (refl, refl)
async_prefetch-BeginsWith true false rounds = ([], [], received rounds, refl, refl, refl)
async_prefetch-BeginsWith false created rounds = ([], [], received rounds, refl, refl, refl)
