-- ===== src/Download/Config.antt =====
-- pkg/base/model.go: the downloader's configuration, its defaults and its merging, and the part of
-- `Setup` in pkg/download/downloader.go that reads it. The sections of the configuration are
-- parameters, and each is a pointer, so `none` is nil.
pub mod Laws
use Prim.Native.String.{String}
use text.Mathlib.Text.{◌==◌ as str_eq}
use gopeed_torbox.Base.{
  ℕ, Bool, true, false, Option, none, some, List, [], ◌∷◌, ◌==◌, if◌then◌else◌, Assoc, lookup,
  insert,
}

-- The types of the sections, and that of any value in a map; the value `empty` of a section is the
-- one with zero fields, with which `Init` fills it.
pub record Sections : Type 1 where
  pub Proxy : Type 0
  pub Webhook : Type 0
  pub Script : Type 0
  pub AutoTorrent : Type 0
  pub Archive : Type 0
  pub Value : Type 0
  pub empty_proxy : Proxy
  pub empty_webhook : Webhook
  pub empty_script : Script
  pub empty_auto_torrent : AutoTorrent
  pub empty_archive : Archive

pub record DownloaderStoreConfig (c : Sections) : Type 0 where
  pub first_load : Bool
  pub download_dir : String
  pub max_running : ℕ
  pub protocol_config : Option (Assoc c.Value)
  pub extra : Option (Assoc c.Value)
  pub proxy : Option c.Proxy
  pub webhook : Option c.Webhook
  pub script : Option c.Script
  pub auto_torrent : Option c.AutoTorrent
  pub archive : Option c.Archive
  pub auto_delete_missing_file_tasks : Bool

-- `if p == nil { p = q }`
abbrev pub otherwise {ℓ} : {A : Type ℓ} → Option A → Option A → Option A
otherwise none q = q
otherwise (some p) q = some p

module _ {ℓ} {A : Type ℓ} where
  abbrev pub with_default : String → A → Assoc A → Option A → Assoc A
  with_default name d m none = insert name d m
  with_default name d m (some v) = m

  -- The loop over the fetcher managers, each a name with its default configuration.
  unfoldable pub fill_defaults : Assoc A → Assoc A → Assoc A
  fill_defaults [] m = m
  fill_defaults ((name, d) ∷ managers) m =
      fill_defaults managers (with_default name d m (lookup name m))

  abbrev pub protocols : Option (Assoc A) → Assoc A
  protocols none = []
  protocols (some m) = m

module _ {c : Sections} where
  unfoldable pub init : DownloaderStoreConfig c → DownloaderStoreConfig c
  init cfg = record cfg {
    max_running = if cfg.max_running == 0 then 5 else cfg.max_running;
    protocol_config = otherwise cfg.protocol_config (some []);
    proxy = otherwise cfg.proxy (some c.empty_proxy);
    webhook = otherwise cfg.webhook (some c.empty_webhook);
    script = otherwise cfg.script (some c.empty_script);
    auto_torrent = otherwise cfg.auto_torrent (some c.empty_auto_torrent);
    archive = otherwise cfg.archive (some c.empty_archive);
  }

  unfoldable pub merge :
      DownloaderStoreConfig c → Option (DownloaderStoreConfig c) → DownloaderStoreConfig c
  merge cfg none = cfg
  merge cfg (some before) = record cfg {
    download_dir = if str_eq cfg.download_dir "" then before.download_dir else cfg.download_dir;
    max_running = if cfg.max_running == 0 then before.max_running else cfg.max_running;
    protocol_config = otherwise cfg.protocol_config before.protocol_config;
    extra = otherwise cfg.extra before.extra;
    proxy = otherwise cfg.proxy before.proxy;
    webhook = otherwise cfg.webhook before.webhook;
    script = otherwise cfg.script before.script;
    auto_torrent = otherwise cfg.auto_torrent before.auto_torrent;
    archive = otherwise cfg.archive before.archive;
  }

  -- A configuration with zero fields.
  unfoldable pub blank_config : DownloaderStoreConfig c
  blank_config = record {
    first_load = false;
    download_dir = "";
    max_running = 0;
    protocol_config = none;
    extra = none;
    proxy = none;
    webhook = none;
    script = none;
    auto_torrent = none;
    archive = none;
    auto_delete_missing_file_tasks = false;
  }

  -- What JSON keeps of it.
  unfoldable pub persisted_config : DownloaderStoreConfig c → DownloaderStoreConfig c
  persisted_config cfg = record cfg { first_load = false }

  -- What was read from the storage, if anything was.
  unfoldable pub stored_or_first : Option (DownloaderStoreConfig c) → DownloaderStoreConfig c
  unfolding blank_config
  stored_or_first none =
      let cfg : DownloaderStoreConfig c = blank_config in record cfg { first_load = true }
  stored_or_first (some cfg) = cfg

  -- The defaults of `Init`, and those of the fetcher managers.
  unfoldable pub with_defaults : Assoc c.Value → DownloaderStoreConfig c → DownloaderStoreConfig c
  unfolding init fill_defaults
  with_defaults managers cfg = record (init cfg) {
    protocol_config = some (fill_defaults managers (protocols (init cfg).protocol_config));
  }

  -- The configuration after `Setup`, for the fetcher managers and what the storage has.
  unfoldable pub load_config :
      Assoc c.Value → Option (DownloaderStoreConfig c) → DownloaderStoreConfig c
  unfolding with_defaults stored_or_first
  load_config managers read = with_defaults managers (stored_or_first read)
