-- ===== src/Download/Storage/Interface.antt =====
-- pkg/download/storage.go: the interface that the downloader uses, as operations with their laws, and
-- the storage in memory as one of its implementations. The other, a third-party database, keeps each
-- value as JSON: `keeps v` is what is read again after `v` was stored.
use Prim.Native.String.{String}
use text.Mathlib.Text.{◌==◌ as str_eq}
use gopeed_torbox.Base.{◌≡◌, refl, Bool, true, ◌&&◌, Option, none, some, if◌then◌else◌}
use gopeed_torbox.Download.Storage.{MemStorage, put, get, delete, pop, change_value}
use gopeed_torbox.Download.Storage.Laws.{
  has_bucket, get-put, get-delete, has_bucket-put, has_bucket-delete,
}

-- An operation that returns an error gives `none`.
pub record Storage (S V : Type 0) : Type 0 where
  pub has : String → S → Bool
  pub keeps : V → V
  pub reads : String → String → S → Option V
  pub puts : String → String → V → S → Option S
  pub pops : String → String → S → Option (Option V × S)
  pub deletes : String → String → S → Option S
  pub reads-puts :
      (b k i j : String) (v : V) {s t : S}
      → has b s ≡ true
      → puts b k v s ≡ some t
      → reads i j t ≡ (if str_eq b i && str_eq k j then some (keeps v) else reads i j s)
  pub has-puts : (b k i : String) (v : V) {s t : S} → puts b k v s ≡ some t → has i t ≡ has i s
  pub popped : (b k : String) {s t : S} {o : Option V} → pops b k s ≡ some (o, t) → o ≡ reads b k s
  pub reads-pops :
      (b k i j : String) {s t : S} {o : Option V}
      → pops b k s ≡ some (o, t)
      → reads i j t ≡ (if str_eq b i && str_eq k j then none else reads i j s)
  pub has-pops :
      (b k i : String) {s t : S} {o : Option V} → pops b k s ≡ some (o, t) → has i t ≡ has i s
  pub reads-deletes :
      (b k i j : String) {s t : S}
      → deletes b k s ≡ some t
      → reads i j t ≡ (if str_eq b i && str_eq k j then none else reads i j s)
  pub has-deletes : (b k i : String) {s t : S} → deletes b k s ≡ some t → has i t ≡ has i s

module _ {V : Type 0} where
  -- The storage in memory, with values that pass through `code` when they are stored: the identity for
  -- the storage of the source.
  unfoldable pub mem_storage : (V → V) → Storage (MemStorage V) V
  mem_storage code = record {
    has = has_bucket;
    keeps = code;
    reads = get;
    puts = λ b k v s. some (put b k (code v) s);
    pops = λ b k s. some (get b k s, delete b k s);
    deletes = λ b k s. some (delete b k s);
    reads-puts = λ b k i j v {s} {t} h e. let law = get-put b k i j (code v) s h in cc;
    has-puts = λ b k i v {s} {t} e. let law = has_bucket-put b k i (code v) s in cc;
    popped = λ b k {s} {t} {o} e. cc;
    reads-pops = λ b k i j {s} {t} {o} e. let law = get-delete b k i j s in cc;
    has-pops = λ b k i {s} {t} {o} e. let law = has_bucket-delete b k i s in cc;
    reads-deletes = λ b k i j {s} {t} e. let law = get-delete b k i j s in cc;
    has-deletes = λ b k i {s} {t} e. let law = has_bucket-delete b k i s in cc;
  }

  -- Of the target and the value found, `pop` makes what the storage's `pops` and `change_value` make.
  pub pop-reads :
      (b k : String) (v : V) (s : MemStorage V)
      → pop b k v s ≡ (change_value v (get b k s), delete b k s)
  unfolding pop
  pop-reads b k v s = refl
