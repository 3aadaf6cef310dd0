-- ===== src/Torrent/Client/Again.antt =====
-- internal/protocol/bt/fetcher.go: the end of a seeding torrent and its deletion, which both close the fetcher.
use gopeed_torbox.Base.{◌≡◌, refl, ap, Bool, true, false, some, List, [], ◌∷◌, ◌==◌}
use gopeed_torbox.Torrent.Client.{
  ClientSession, no_session, Held, closed, nil_client, waits, CloseResult, ClientLibrary,
  init_client, close_client, close, wait_upload, stop_resolving, after_close,
}

abbrev pub then_close :
    {C T E K : Type 0} → ClientLibrary C T E K → T → CloseResult C → CloseResult C
unfolding close
then_close lib t waits = waits
then_close lib t nil_client = nil_client
then_close lib t (closed s h) = close lib t (wait_upload h) s

module _ {C T E K : Type 0} (lib : ClientLibrary C T E K) where
  close-last :
      (t : T) (c : C) (h : Held) (s : ClientSession C)
      → s.client ≡ some c
      → h.upload_done ≡ false
      → (lib.count (lib.drop_torrent t c) == 0) ≡ true
      → lib.close_errors (lib.drop_torrent t c) ≡ []
      → close lib t h s ≡ closed no_session (record { dropped = true; upload_done = true })
  unfolding close close_client
  close-last t c h s present empty last fine =
      rw (close, present, empty, last, close_client, fine) refl

  -- A fetcher whose torrent is the last of the client, which closes without an error, is closed,
  -- and closed again once WaitUpload has returned: the second Close calls a nil client.
  pub close-again :
      (t : T) (c : C) (h : Held) (s : ClientSession C)
      → s.client ≡ some c
      → h.upload_done ≡ false
      → (lib.count (lib.drop_torrent t c) == 0) ≡ true
      → lib.close_errors (lib.drop_torrent t c) ≡ []
      → then_close lib t (close lib t h s) ≡ nil_client
  unfolding close then_close
  close-again t c h s present empty last fine =
      ap (then_close lib t) (close-last t c h s present empty last fine)

  -- After an error of the client's Close, the next fetcher that is set up is given the closed client.
  pub init-closed :
      (config : K) (c : C) (e : E) (es : List E) (has resolves : Bool)
      → lib.close_errors c ≡ e ∷ es
      → (init_client lib config
          (close_client lib
            (record { client = some c; has_context = has; resolving = resolves })).0).0.client
        ≡ some c
  unfolding init_client close_client
  init-closed config c e es has resolves failed =
      let open_session : ClientSession C = record {
        client = some c;
        has_context = has;
        resolving = resolves;
      } in
      ap
        (λ u.
          (init_client lib config (after_close lib (stop_resolving lib open_session) u).0).0.client)
        failed
