-- ===== src/Http/Transfer/Split.antt =====
-- A chunk cut in two: by a thief, and by `expandConnections`. The cut lies behind every byte that
-- its connection may be writing.
use gopeed_torbox.Base.{
  ℕ, ◌+◌, ◌*◌, ◌≤◌, ◌<◌, ◌≡◌, ◌≢◌, ◌⊎◌, inl, inr, false, Option, none, some, arith, dec_lt, List,
  get_elem?, sym, ap, subst,
}
use gopeed_torbox.Http.Chunk.{Chunk, Connection, remain, is_failed}
use gopeed_torbox.Http.Steal.{choose, steal_score, steal_min_chunk_size, stolen, shrunk}
use gopeed_torbox.Http.Steal.Choice.{choose_cases}
use gopeed_torbox.Http.Expand.{split_score, kept, handed_over}
use gopeed_torbox.Http.Transfer.{buffer_size}
use gopeed_torbox.Http.Transfer.Invariant.{InChunk}

-- `a` keeps the front of `v` and `b` gets the rest.
pub record Splits (v a b : Chunk) : Type 0 where
  pub same_begin : a.begin ≡ v.begin
  pub same_downloaded : a.downloaded ≡ v.downloaded
  pub joined : a.end + 1 ≡ b.begin
  pub same_end : b.end ≡ v.end
  pub nothing_yet : b.downloaded ≡ 0
  pub room : v.begin + v.downloaded + buffer_size ≤ a.end + 1
  pub not_empty : b.begin ≤ b.end

pub stolen-Splits : (v : Chunk) → steal_min_chunk_size ≤ remain v → Splits v (shrunk v) (stolen v)
unfolding stolen shrunk remain
stolen-Splits v h = omega arith

pub kept-Splits :
    (v : Chunk) → steal_min_chunk_size * 2 < remain v → Splits v (kept v) (handed_over v)
unfolding kept handed_over remain
kept-Splits v h = omega arith

-- The two parts have the same work as the whole.
pub Splits-remain : (v a b : Chunk) → Splits v a b → remain a + remain b ≡ remain v
unfolding remain
Splits-remain v a b s = omega arith

pub Splits-InChunk :
    (v a b : Chunk) (x : ℕ) → Splits v a b → InChunk v x → InChunk a x ⊎ InChunk b x
Splits-InChunk v a b x s h = elim (dec_lt a.end x) [
  | yes p ↦ inr (omega arith)
  | no p ↦ inl (omega arith)
]

pub steal_score_lem :
    (helper i : ℕ) (r : Connection) (s : ℕ)
    → steal_score helper i r ≡ some s
    → (i ≢ helper)
      × (r.completed ≡ false)
      × (is_failed r.state ≡ false)
      × (steal_min_chunk_size ≤ remain r.chunk)
unfolding steal_score
steal_score_lem helper i r s h = (ground arith, ground arith, ground arith, ground arith)

pub split_score_lem :
    (i : ℕ) (r : Connection) (s : ℕ)
    → split_score i r ≡ some s
    → (r.completed ≡ false)
      × (is_failed r.state ≡ false)
      × (steal_min_chunk_size * 2 < remain r.chunk)
unfolding split_score
split_score_lem i r s h = (ground arith, ground arith, ground arith)

-- What a choice over the whole list has found.
pub chosen :
    (score : ℕ → Connection → Option ℕ) (conns : List Connection) (j : ℕ)
    → (choose score 0 conns (none, 0)).0 ≡ some j
    → (c : Connection) × (get_elem? conns j ≡ some c)
      × (score j c ≡ some ((choose score 0 conns (none, 0)).1))
chosen score conns j h = elim (choose_cases score 0 conns (none, 0)) [
  | inl e ↦ absurd (cc (ap (λ p. p.0) e))
  | inr (j', e, (k, c, q, g, t)) ↦
      let same : j ≡ j' = cc in
      let at : k ≡ j = omega arith in
      (
        c,
        subst (λ n. get_elem? conns n ≡ some c) at g,
        subst (λ n. score n c ≡ some ((choose score 0 conns (none, 0)).1)) (sym same) t,
      )
]
