-- ===== src/Http/Transfer/Invariant.antt =====
-- What holds of the connections, their goroutines and the file between any two sections.
use gopeed_torbox.Base.{
  ℕ, ◌+◌, ◌≤◌, ◌<◌, ◌≡◌, ◌≢◌, sym, ◌∙◌, subst, ◌⊎◌, inl, inr, true, false, Option, none, some, List,
  arith, get_elem?, set, sum_of, ℕ_discrete, get_elem?-set_self, get_elem?-set_ne,
}
use gopeed_torbox.Http.Chunk.{Chunk, Connection, Reservation, remain, is_failed, is_completed}
use gopeed_torbox.Http.Transfer.{
  Local, World, resting, streaming, reserved, written, chunk_done, stopped, update, buffer_size,
}

-- The bytes that a connection has got and those that it still has to get.
abbrev pub share : Connection → ℕ
share c = c.downloaded + remain c.chunk

abbrev pub InChunk : Chunk → ℕ → Type 0
InChunk k x = (k.begin + k.downloaded ≤ x) × (x ≤ k.end)

-- The byte `x` is still to be fetched by one of the connections.
abbrev pub Pending : List Connection → ℕ → Type 0
Pending conns x = (i : ℕ) × (c : Connection) × (get_elem? conns i ≡ some c) × InChunk c.chunk x

abbrev pub Reserves : Chunk → Reservation → ℕ → ℕ → Type 0
Reserves k r pos stop =
    (pos ≡ k.begin + k.downloaded)
    × (k.end ≤ stop)
    × (r.offset ≡ pos)
    × (pos + r.count ≤ k.end + 1)
    × (r.count ≤ buffer_size)
    × (r.finished ≡ true → pos + r.count ≡ k.end + 1)

module _ (remote : ℕ → ℕ) (size : ℕ) where
  -- The file has the server's byte at `x`.
  abbrev pub Good : (ℕ → Option ℕ) → ℕ → Type 0
  Good file x = file x ≡ some (remote x)

  -- What the place of a goroutine says of its connection.
  abbrev pub At : (ℕ → Option ℕ) → Connection → Local → Type 0
  At file c resting = c.completed ≡ false
  At file c (streaming pos stop) =
      (c.completed ≡ false) × (pos ≡ c.chunk.begin + c.chunk.downloaded) × (c.chunk.end ≤ stop)
  At file c (reserved r pos stop) = (c.completed ≡ false) × Reserves c.chunk r pos stop
  At file c (written r pos stop) =
      (c.completed ≡ false)
      × Reserves c.chunk r pos stop
      × ((x : ℕ) → pos ≤ x → x < pos + r.count → Good file x)
  At file c chunk_done =
      (c.completed ≡ false) × (c.chunk.begin + c.chunk.downloaded ≡ c.chunk.end + 1)
  At file c stopped =
      ((c.completed ≡ true) × (c.chunk.begin + c.chunk.downloaded ≡ c.chunk.end + 1))
      ⊎ ((is_failed c.state ≡ true) × (c.failed ≡ true) × (c.completed ≡ false))

  pub record Fits (file : ℕ → Option ℕ) (c : Connection) (l : Local) : Type 0 where
    pub within : c.chunk.begin + c.chunk.downloaded ≤ c.chunk.end + 1
    pub below : c.chunk.end < size
    pub agree : is_completed c.state ≡ true → c.completed ≡ true
    pub at : At file c l

  pub record Inv (w : World) : Type 0 where
    pub each : (i : ℕ) (c : Connection) → get_elem? w.conns i ≡ some c → Fits w.file c (w.locals i)
    pub unused : (i : ℕ) → get_elem? w.conns i ≡ none → w.locals i ≡ resting
    pub covered : (x : ℕ) → x < size → Good w.file x ⊎ Pending w.conns x
    pub shares : sum_of share w.conns ≡ size

-- An update at one index.
pub update_self : (f : ℕ → Local) (i : ℕ) (l : Local) → update f i l i ≡ l
unfolding update
update_self f i l = ground arith

pub update_ne : (f : ℕ → Local) (i j : ℕ) (l : Local) → i ≢ j → update f i l j ≡ f j
unfolding update
update_ne f i j l h = ground arith

-- A list with one connection replaced: what is found in it.
pub get_elem?-set_cases :
    (conns : List Connection) (i j : ℕ) (v c a : Connection)
    → get_elem? conns i ≡ some a
    → get_elem? (set conns i v) j ≡ some c
    → ((i ≡ j) × (c ≡ v)) ⊎ ((i ≢ j) × (get_elem? conns j ≡ some c))
get_elem?-set_cases conns i j v c a g h = elim (ℕ_discrete i j) [
  | yes e ↦ inl (e, cc (get_elem?-set_self conns i v a g))
  | no n ↦ inr (n, sym (get_elem?-set_ne conns i j v n) ∙ h)
]

pub get_elem?-set-none :
    (conns : List Connection) (i j : ℕ) (v a : Connection)
    → get_elem? conns i ≡ some a
    → get_elem? (set conns i v) j ≡ none
    → (i ≢ j) × (get_elem? conns j ≡ none)
get_elem?-set-none conns i j v a g h = elim (ℕ_discrete i j) [
  | yes e ↦ absurd (cc (get_elem?-set_self conns i v a g))
  | no n ↦ (n, sym (get_elem?-set_ne conns i j v n) ∙ h)
]

-- A byte that one connection gives up is somewhere else, and the others keep theirs.
pub Pending-set {ℓ} :
    {Q : Type ℓ} (conns : List Connection) (j : ℕ) (c v : Connection) (x : ℕ)
    → get_elem? conns j ≡ some c
    → (InChunk c.chunk x → Q ⊎ InChunk v.chunk x)
    → Pending conns x
    → Q ⊎ Pending (set conns j v) x
Pending-set conns j c v x g f (i, d, h, p) = elim (ℕ_discrete j i) [
  | yes e ↦
      let same : d ≡ c = cc in
      elim (f (subst (λ (k : Connection). InChunk k.chunk x) same p)) [
        | inl q ↦ inl q
        | inr r ↦ inr (j, v, get_elem?-set_self conns j v c g, r)
      ]
  | no n ↦ inr (i, d, get_elem?-set_ne conns j i v n ∙ h, p)
]
