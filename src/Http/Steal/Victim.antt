-- ===== src/Http/Steal/Victim.antt =====
-- internal/protocol/http/fetcher.go: whom `helpOtherConnection` helps.
use gopeed_torbox.Base.{
  ℕ, ◌/◌, ◌≤◌, ◌<◌, ◌≡◌, ◌≢◌, ◌⊎◌, refl, true, Bool-cases, ltb, ap, subst, inl, inr, false, none,
  some, List, arith, get_elem?, Option-cases,
}
use gopeed_torbox.Http.Chunk.{Connection, remain, is_failed}
use gopeed_torbox.Http.Steal.{
  choose, steal_score, remain_seconds, steal_min_chunk_size, steal, help_other_connection,
}
use gopeed_torbox.Http.Steal.Choice.{choose_cases, choose_max}

-- The seconds that a connection takes for what it has left; they are taken to be 4 if it has no speed.
abbrev pub Seconds : Connection → ℕ → Type 0
Seconds c s = ((c.speed ≡ 0) × (s ≡ 4)) ⊎ ((0 < c.speed) × (s ≡ remain c.chunk / c.speed))

-- A connection that can be helped: not the helper, not complete and not failed, with 512 KiB or
-- more and over 3 seconds left.
abbrev pub Helpable : ℕ → ℕ → Connection → ℕ → Type 0
Helpable helper i c s =
    (i ≢ helper)
    × (c.completed ≡ false)
    × (is_failed c.state ≡ false)
    × (524288 ≤ remain c.chunk)
    × (3 < s)
    × Seconds c s

-- The connection `c` at `v` is the one that would take longest, among those that can be helped.
abbrev pub Longest : ℕ → List Connection → ℕ → Connection → Type 0
Longest helper conns v c =
    (s : ℕ) × (get_elem? conns v ≡ some c)
    × (steal_score helper v c ≡ some s)
    × ((j : ℕ) (d : Connection) (t : ℕ)
        → get_elem? conns j ≡ some d
        → steal_score helper j d ≡ some t
        → t ≤ s)

score-bounds :
    (helper i : ℕ) (r : Connection) (s : ℕ)
    → steal_score helper i r ≡ some s
    → (i ≢ helper) × (3 < s) × (steal_min_chunk_size ≤ remain r.chunk) × (r.completed ≡ false)
unfolding steal_score
score-bounds helper i r s e = ground arith

victim-Longest :
    (helper : ℕ) (conns : List Connection) (v : ℕ)
    → (choose (steal_score helper) 0 conns (none, 0)).0 ≡ some v
    → (c : Connection) × Longest helper conns v c
victim-Longest helper conns v e = elim (choose_cases (steal_score helper) 0 conns (none, 0)) [
  | inl k ↦ absurd (cc (ap (λ p. p.0) k))
  | inr (j, f, (k, c, a, g, h)) ↦
      let same : v ≡ j = cc in
      let place : k ≡ v = omega arith in
      (
        c,
        (
          (choose (steal_score helper) 0 conns (none, 0)).1,
          subst (λ i. get_elem? conns i ≡ some c) place g,
          cc,
          λ i d t q r.
              choose_max (steal_score helper) 0 conns (none, 0) i t (i, d, omega arith, q, r),
        ),
      )
]

none-no_score :
    (helper : ℕ) (conns : List Connection)
    → (choose (steal_score helper) 0 conns (none, 0)).0 ≡ none
    → (j : ℕ) (d : Connection) → get_elem? conns j ≡ some d
    → steal_score helper j d ≡ none
none-no_score helper conns e j d g = elim (Option-cases (steal_score helper j d)) [
  | inl n ↦ n
  | inr (s, q) ↦ elim (choose_cases (steal_score helper) 0 conns (none, 0)) [
    | inl k ↦ absurd (
        omega (
          arith,
          score-bounds helper j d s q,
          ap (λ p. p.1) k,
          choose_max (steal_score helper) 0 conns (none, 0) j s (j, d, omega arith, g, q),
        ))
    | inr (i, f, r) ↦ cc
  ]
]

steal-some :
    (helper v : ℕ) (conns : List Connection) (h c : Connection)
    → get_elem? conns helper ≡ some h
    → get_elem? conns v ≡ some c
    → steal helper v conns ≢ none
unfolding steal
steal-some helper v conns h c g q e = cc (rw (g, q, steal) at e)

remain_seconds-Seconds : (c : Connection) → Seconds c (remain_seconds c)
unfolding remain_seconds
remain_seconds-Seconds c = elim (Bool-cases (ltb 0 c.speed)) [
  | inl q ↦ rw (q, remain_seconds) (inr (ground (arith, q), refl))
  | inr q ↦ rw (q, remain_seconds) (inl (ground (arith, q), refl))
]

Seconds-remain_seconds : (c : Connection) (s : ℕ) → Seconds c s → s ≡ remain_seconds c
unfolding remain_seconds
Seconds-remain_seconds c s (inl (still, e)) = rw (still, e) refl
Seconds-remain_seconds c s (inr (moves, e)) =
    let q : ltb 0 c.speed ≡ true = ground (arith, moves) in rw (remain_seconds, q, e) refl

score-Helpable :
    (helper i : ℕ) (r : Connection) (s : ℕ)
    → steal_score helper i r ≡ some s
    → Helpable helper i r s
unfolding steal_score
score-Helpable helper i r s e =
    let same : remain_seconds r ≡ s = ground arith in
    (
      ground arith,
      ground arith,
      ground arith,
      ground arith,
      ground arith,
      subst (Seconds r) same (remain_seconds-Seconds r),
    )

Helpable-score :
    (helper i : ℕ) (r : Connection) (s : ℕ)
    → Helpable helper i r s
    → steal_score helper i r ≡ some s
unfolding steal_score
Helpable-score helper i r s (ne, o, f, l, b, sec) =
    let same = Seconds-remain_seconds r s sec in ground (arith, same, ne, o, f, l, b)

-- A helper that is given work gets it from a connection that can be helped, which is not itself,
-- neither complete nor failed, and has 512 KiB or more and over 3 seconds left, and of all such
-- connections takes longest for what it has left. A connection without a speed is taken for one of
-- 4 seconds.
pub help-Longest :
    (helper : ℕ) (conns moved : List Connection)
    → help_other_connection helper conns ≡ some moved
    → (v : ℕ) × (c : Connection) × (s : ℕ) × (steal helper v conns ≡ some moved)
      × (get_elem? conns v ≡ some c)
      × Helpable helper v c s
      × ((j : ℕ) (d : Connection) (t : ℕ)
          → get_elem? conns j ≡ some d
          → Helpable helper j d t
          → t ≤ s)
unfolding help_other_connection
help-Longest helper conns moved e =
    elim (Option-cases ((choose (steal_score helper) 0 conns (none, 0)).0)) [
      | inl n ↦ absurd (cc (rw (n, help_other_connection) at e))
      | inr (v, k) ↦
          let (c, (s, g, q, m)) = victim-Longest helper conns v k in
          (
            v,
            c,
            s,
            rw (k, help_other_connection) at e,
            g,
            score-Helpable helper v c s q,
            λ j d t h i. m j d t h (Helpable-score helper j d t i),
          )
    ]

-- A helper that is given no work, and is a connection of the fetcher, found none that can be
-- helped.
pub help-none :
    (helper : ℕ) (conns : List Connection) (h : Connection)
    → get_elem? conns helper ≡ some h
    → help_other_connection helper conns ≡ none
    → (j : ℕ) (d : Connection) → get_elem? conns j ≡ some d
    → steal_score helper j d ≡ none
unfolding help_other_connection
help-none helper conns h g e =
    elim (Option-cases ((choose (steal_score helper) 0 conns (none, 0)).0)) [
      | inl n ↦ none-no_score helper conns n
      | inr (v, k) ↦
          let (c, (s, q, _, _)) = victim-Longest helper conns v k in
          absurd (steal-some helper v conns h c g q (rw (k, help_other_connection) at e))
    ]
