-- ===== src/Http/Expand/Limit.antt =====
-- internal/protocol/http/fetcher.go: the number of connections of `expandConnections`.
use gopeed_torbox.Base.{
  ℕ, zero, suc, ◌+◌, ◌-◌, ◌≤◌, ◌<◌, ◌≡◌, leb, ◌==◌, arith, List, length, length-append, length-set,
  none, Option-cases, Bool-cases, inl, inr, get_elem?,
}
use gopeed_torbox.Http.Chunk.{Connection}
use gopeed_torbox.Http.Steal.{choose}
use gopeed_torbox.Http.SlowStart.{SlowStart, get_next_batch_size, commit_batch}
use gopeed_torbox.Http.Expand.{
  kept, split, split_score, grow, Expansion, launched, steady, all_prefetched, first_connection,
  later_batch, expand_connections,
}

length-split :
    (j : ℕ) (conns : List Connection)
    → (length conns ≤ length (split j conns)) × (length (split j conns) ≤ length conns + 1)
unfolding split
length-split j conns = elim (Option-cases (get_elem? conns j)) [
  | inl e ↦ rw (e, split) (omega arith)
  | inr (c, e) ↦
      rw (e, split)
        (rw length-append (omega (arith, length-set conns j (record c { chunk = kept c.chunk }))))
]

length-grow :
    (batch : ℕ) (conns : List Connection)
    → (length conns ≤ length (grow batch conns))
      × (length (grow batch conns) ≤ length conns + batch)
unfolding grow
length-grow zero conns = omega arith
length-grow (suc batch) conns = elim (Option-cases ((choose split_score 0 conns (none, 0)).0)) [
  | inl e ↦ rw (e, grow) (omega arith)
  | inr (j, e) ↦
      rw (e, grow) (omega (arith, length-split j conns, length-grow batch (split j conns)))
]

next_batch-le : (s : SlowStart) → get_next_batch_size s ≤ s.max_connections - s.total_launched
unfolding get_next_batch_size
next_batch-le s = ground arith

-- What a batch leaves behind: as many connections as the controller counts, and within its limit.
abbrev pub Within : Expansion → ℕ → Type 0
Within (launched conns slow) limit =
    (length conns ≡ slow.total_launched)
    × (slow.total_launched ≤ limit)
    × (slow.max_connections ≡ limit)
Within (steady conns) limit = length conns ≤ limit
Within all_prefetched limit = Unit

later-Within :
    (batch : ℕ) (conns : List Connection) (s : SlowStart)
    → length conns ≡ s.total_launched
    → s.total_launched + batch ≤ s.max_connections
    → Within (later_batch batch conns s) s.max_connections
unfolding later_batch commit_batch
later-Within batch conns s e b = elim (Bool-cases (length (grow batch conns) - length conns == 0)) [
  | inl z ↦ rw (z, later_batch) (omega (arith, length-grow batch conns))
  | inr p ↦ rw (p, later_batch) (omega (arith, length-grow batch conns))
]

first-Within :
    (prefetched size : ℕ) (s : SlowStart)
    → s.total_launched ≡ 0
    → 0 < s.max_connections
    → Within (first_connection prefetched size s) s.max_connections
unfolding first_connection
first-Within prefetched size s e b = elim (Bool-cases (leb size prefetched)) [
  | inl z ↦ rw (z, first_connection) tt
  | inr p ↦ rw (p, first_connection) (omega arith)
]

-- If the slow start's count is the number of connections and within its limit, then after
-- `expandConnections` the number of connections is within the limit, and where a batch was
-- launched the count is that number.
pub expand-Within :
    (prefetched size : ℕ) (conns : List Connection) (s : SlowStart)
    → length conns ≡ s.total_launched
    → s.total_launched ≤ s.max_connections
    → Within (expand_connections prefetched size conns s) s.max_connections
unfolding expand_connections
expand-Within prefetched size conns s e b = elim (Bool-cases (get_next_batch_size s == 0)) [
  | inl z ↦ rw (z, expand_connections) (omega arith)
  | inr p ↦ elim (Bool-cases (length conns == 0)) [
    | inl z ↦
        rw (p, z, expand_connections)
          (first-Within prefetched size s (ground arith) (ground (arith, next_batch-le s)))
    | inr q ↦
        rw (p, q, expand_connections)
          (later-Within (get_next_batch_size s) conns s e (ground (arith, next_batch-le s)))
  ]
]
