-- ===== src/Torrent/Client.antt =====
-- internal/protocol/bt/fetcher.go: the client of the torrent library, which all fetchers share, and what ends
-- it. The library is a parameter; a context is there or nil, and not done or done.
pub mod Again
use gopeed_torbox.Base.{
  ℕ, Bool, true, false, not, ◌&&◌, Option, none, some, List, [], ◌∷◌, ◌==◌, if◌then◌else◌,
}

-- The variables of the package: `client`, whether `closeCtx` and `closeFunc` are set, and whether the
-- resolver of names runs, until its context is done.
pub record ClientSession (C : Type 0) : Type 0 where
  pub client : Option C
  pub has_context : Bool
  pub resolving : Bool

abbrev pub no_session : {C : Type 0} → ClientSession C
no_session = record { client = none; has_context = false; resolving = false }

-- A fetcher: whether it was dropped, and whether `uploadDoneCh`, which holds one value, has one.
pub record Held : Type 0 where
  pub dropped : Bool
  pub upload_done : Bool

-- The end of `WaitUpload` takes the value from the channel.
abbrev pub wait_upload : Held → Held
wait_upload h = record h { upload_done = false }

-- How `Close` ends: it returns, it waits for room in the channel, or it calls a nil client.
pub data CloseResult (C : Type 0) : Type 0 where
  closed : ClientSession C → Held → CloseResult C
  waits : CloseResult C
  nil_client : CloseResult C

-- The library: `NewClient` with the configuration of the fetcher, the number of `Torrents`, `Drop`,
-- and the errors of `Close`.
pub record ClientLibrary (C T E K : Type 0) : Type 0 where
  pub new_client : K → Option C
  pub count : C → ℕ
  pub drop_torrent : T → C → C
  pub close_errors : C → List E

module _ {C T E K : Type 0} (lib : ClientLibrary C T E K) where
  -- `initClient`, and whether there is no error.
  unfoldable pub init_client : K → ClientSession C → ClientSession C × Bool
  init_client config s = elim s.client [
    | some c ↦ (s, true)
    | none ↦ elim (lib.new_client config) [
      | none ↦ (record s { has_context = true }, false)
      | some c ↦ (record { client = some c; has_context = true; resolving = true }, true)
    ]
  ]

  -- `closeFunc()`, where it is set.
  abbrev pub stop_resolving : ClientSession C → ClientSession C
  stop_resolving s = record s { resolving = s.resolving && not s.has_context }

  abbrev pub after_close : ClientSession C → List E → ClientSession C × Option E
  after_close s [] = (no_session, none)
  after_close s (e ∷ es) = (s, some e)

  -- `closeClient`, and its error.
  unfoldable pub close_client : ClientSession C → ClientSession C × Option E
  close_client s = elim s.client [
    | none ↦ (stop_resolving s, none)
    | some c ↦ after_close (stop_resolving s) (lib.close_errors c)
  ]

  -- `safeDrop`, where a panic is recovered from.
  abbrev pub safe_drop : T → ClientSession C → ClientSession C
  safe_drop t s = elim s.client [
    | none ↦ s
    | some c ↦ record s { client = some (lib.drop_torrent t c) }
  ]

  abbrev pub close_last : Held → ClientSession C → Option C → CloseResult C
  unfolding close_client
  close_last h s none = nil_client
  close_last h s (some c) = if lib.count c == 0 then closed (close_client s).0 h else closed s h

  -- `Close`. The error of `closeClient` is not returned.
  unfoldable pub close : T → Held → ClientSession C → CloseResult C
  unfolding close_last
  close t h s =
      let next = safe_drop t s in
      let rest = close_last (record { dropped = true; upload_done = true }) next next.client in
      if h.upload_done then waits else rest
