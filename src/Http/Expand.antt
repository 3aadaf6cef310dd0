-- ===== src/Http/Expand.antt =====
-- internal/protocol/http/fetcher.go, `expandConnections`: new connections take the latter halves of
-- the largest chunks, as many as the slow start allows.
pub mod Limit
use gopeed_torbox.Base.{
  ℕ, zero, suc, ◌+◌, ◌-◌, ◌*◌, ◌/◌, ◌||◌, Option, none, some, List, [], ◌∷◌, ◌++◌, ltb, leb,
  if◌then◌else◌, get_elem?, set, length, ◌==◌,
}
use gopeed_torbox.Http.Chunk.{
  Chunk, Connection, worker, primary, remain, new_chunk, new_connection, is_failed,
}
use gopeed_torbox.Http.Steal.{choose, steal_min_chunk_size}
use gopeed_torbox.Http.SlowStart.{SlowStart, get_next_batch_size, commit_batch}

unfoldable pub split_score : ℕ → Connection → Option ℕ
split_score i c =
    if c.completed || is_failed c.state
    then none
    else if ltb (steal_min_chunk_size * 2) (remain c.chunk)
    then some (remain c.chunk)
    else none

unfoldable pub split_point : Chunk → ℕ
split_point c = c.end - remain c / 2

unfoldable pub kept : Chunk → Chunk
unfolding split_point
kept c = record c { end = split_point c }

unfoldable pub handed_over : Chunk → Chunk
unfolding split_point new_chunk
handed_over c = new_chunk (split_point c + 1) c.end

unfoldable pub split : ℕ → List Connection → List Connection
unfolding kept handed_over new_connection
split victim conns = elim (get_elem? conns victim) [
  | none ↦ conns
  | some c ↦
      set conns victim (record c { chunk = kept c.chunk })
      ++ new_connection worker (handed_over c.chunk) 0 ∷ []
]

-- The loop over the batch; it breaks when no connection has enough work.
unfoldable pub grow : ℕ → List Connection → List Connection
grow zero conns = conns
grow (suc batch) conns = elim ((choose split_score 0 conns (none, 0)).0) [
  | none ↦ conns
  | some victim ↦ grow batch (split victim conns)
]

-- What `expandConnections` does to the fetcher: the new list and controller, and whether the
-- fetcher went to the steady state or was done at once.
pub data Expansion : Type 0 where
  launched : (conns : List Connection) (slow : SlowStart) → Expansion
  steady : (conns : List Connection) → Expansion
  all_prefetched : Expansion

-- The first batch: one connection behind the prefetched bytes.
unfoldable pub first_connection : ℕ → ℕ → SlowStart → Expansion
unfolding new_connection new_chunk commit_batch
first_connection prefetched size slow =
    if leb size prefetched
    then all_prefetched
    else launched (new_connection primary (new_chunk prefetched (size - 1)) prefetched ∷ [])
        (commit_batch slow 1)

unfoldable pub later_batch : ℕ → List Connection → SlowStart → Expansion
unfolding commit_batch
later_batch batch conns slow =
    let conns' = grow batch conns in
    let count = length conns' - length conns in
    if count == 0 then steady conns' else launched conns' (commit_batch slow count)

unfoldable pub expand_connections : ℕ → ℕ → List Connection → SlowStart → Expansion
expand_connections prefetched size conns slow =
    let batch = get_next_batch_size slow in
    if batch == 0
    then steady conns
    else if length conns == 0
    then first_connection prefetched size slow
    else later_batch batch conns slow
