-- ===== src/Http/Steal.antt =====
-- internal/protocol/http/fetcher.go, `helpOtherConnection`: the choice of the connection with the
-- longest remaining time, and the theft of half of its work. The choice loop is shared with
-- `expandConnections`, which runs it on remaining bytes.
pub mod Choice
pub mod Victim
use gopeed_torbox.Base.{
  ℕ, zero, suc, ◌+◌, ◌-◌, ◌*◌, ◌/◌, ◌≤◌, ◌<◌, ◌≡◌, refl, ◌⊎◌, inl, inr, Bool, true, false, ◌&&◌,
  ◌||◌, Option, none, some, List, [], ◌∷◌, ltb, leb, ◌==◌, if◌then◌else◌, arith, get_elem?, set,
}
use gopeed_torbox.Http.Chunk.{Connection, Chunk, remain, is_failed}

abbrev pub steal_threshold_seconds : ℕ
steal_threshold_seconds = 3

abbrev pub steal_min_chunk_size : ℕ
steal_min_chunk_size = 512 * 1024

-- One round of a choice loop: the best position so far, with its score, and the score of this one
-- (`none` where the loop says `continue`).
unfoldable pub better : Option ℕ → ℕ → Option ℕ × ℕ → Option ℕ × ℕ
better none i b = b
better (some s) i (best, m) = if ltb m s then (some i, s) else (best, m)

unfoldable pub choose :
    (ℕ → Connection → Option ℕ) → ℕ → List Connection → Option ℕ × ℕ → Option ℕ × ℕ
unfolding better
choose score i [] b = b
choose score i (r ∷ rs) b = choose score (suc i) rs (better (score i r) i b)

-- `remainSeconds`: by speed, or one more than the threshold when the speed is unknown.
unfoldable pub remain_seconds : Connection → ℕ
remain_seconds r = if ltb 0 r.speed then remain r.chunk / r.speed else steal_threshold_seconds + 1

unfoldable pub steal_score : ℕ → ℕ → Connection → Option ℕ
unfolding remain_seconds
steal_score helper i r =
    if i == helper || (r.completed || is_failed r.state)
    then none
    else if ltb (remain r.chunk) steal_min_chunk_size
    then none
    else if ltb steal_threshold_seconds (remain_seconds r)
    then some (remain_seconds r)
    else none

-- The helper's new chunk, and what is left of the victim's.
unfoldable pub stolen : Chunk → Chunk
stolen v = record { begin = v.end - remain v / 2; end = v.end; downloaded = 0 }

unfoldable pub shrunk : Chunk → Chunk
unfolding stolen
shrunk v = record v { end = (stolen v).begin - 1 }

unfoldable pub steal : ℕ → ℕ → List Connection → Option (List Connection)
unfolding stolen shrunk
steal helper victim conns = elim (get_elem? conns helper) [
  | none ↦ none
  | some h ↦ elim (get_elem? conns victim) [
    | none ↦ none
    | some v ↦ some (
        set (set conns helper (record h { chunk = stolen v.chunk })) victim
          (record v { chunk = shrunk v.chunk }))
  ]
]

-- `none` is `return false`.
unfoldable pub help_other_connection : ℕ → List Connection → Option (List Connection)
help_other_connection helper conns = elim ((choose (steal_score helper) 0 conns (none, 0)).0) [
  | none ↦ none
  | some victim ↦ steal helper victim conns
]
