-- ===== src/Extension/Source/Found.antt =====
-- pkg/download/extension.go: what `fetchExtensionByGit` clones of a repository.
use gopeed_torbox.Base.{
  drop-append, ℕ, suc, ◌+◌, ◌≡◌, refl, ap, sym, ◌∙◌, false, none, some, List, [], ◌∷◌, ◌++◌, length,
  take, arith, append_assoc, bytes_eq,
}
use gopeed_torbox.Util.Match.{has_prefix, has_suffix, cut_at, slash, has_byte}
use gopeed_torbox.Util.Match.Parsed.{cut_at-first, cut_at-without, has_byte-append}
use gopeed_torbox.Util.Filename.{last_index}
use gopeed_torbox.Extension.Source.{
  hash, git_suffix, https, trim_suffix, path_split, without_slash, build_install_url, with_scheme,
  project_parts, source_of, git_source,
}

last_index-without : (c : ℕ) (s : List ℕ) → has_byte c s ≡ false → last_index c s ≡ none
unfolding last_index has_byte
last_index-without c [] h = refl
last_index-without c (b ∷ bs) h = ground (arith, last_index-without c bs)

last_index-last :
    (c : ℕ) (s t : List ℕ) → has_byte c t ≡ false → last_index c (s ++ c ∷ t) ≡ some (length s)
unfolding last_index
last_index-last c [] t h = rw (last_index-without c t h) (ground arith)
last_index-last c (b ∷ bs) t h = rw (last_index-last c bs t h) refl

take-append : (s t : List ℕ) (c : ℕ) → take (length s + 1) (s ++ c ∷ t) ≡ s ++ c ∷ []
take-append [] t c = refl
take-append (b ∷ bs) t c =
    let e : suc (length bs) + 1 ≡ suc (length bs + 1) = omega arith in
    rw e (ap (◌∷◌ b) (take-append bs t c))

path_split-last :
    (s t : List ℕ) → has_byte slash t ≡ false → path_split (s ++ slash ∷ t) ≡ (s ++ slash ∷ [], t)
unfolding path_split
path_split-last s t h =
    rw (path_split, last_index-last slash s t h, take-append s t slash, drop-append s (slash ∷ t) 1)
      refl

has_suffix-slash : (t : List ℕ) → has_byte slash t ≡ false → has_suffix (slash ∷ []) t ≡ false
unfolding has_suffix has_byte bytes_eq
has_suffix-slash [] h = refl
has_suffix-slash (b ∷ bs) h = ground (arith, has_suffix-slash bs)

-- A text with a last part that is not empty does not end in a slash.
has_suffix-part :
    (s : List ℕ) (b : ℕ) (bs : List ℕ)
    → has_byte slash (b ∷ bs) ≡ false
    → has_suffix (slash ∷ []) (s ++ slash ∷ b ∷ bs) ≡ false
unfolding has_suffix bytes_eq
has_suffix-part [] b bs h = has_suffix-slash (b ∷ bs) h
has_suffix-part (c ∷ []) b bs h = rw (has_suffix-part [] b bs h) (ground arith)
has_suffix-part (c ∷ d ∷ s) b bs h = rw (has_suffix-part (d ∷ s) b bs h) (ground arith)

trim_suffix-other : (t s : List ℕ) → has_suffix t s ≡ false → trim_suffix t s ≡ s
unfolding trim_suffix
trim_suffix-other t s h = rw (trim_suffix, h) refl

without_slash-other :
    (b : ℕ) (bs : List ℕ) → has_byte slash (b ∷ []) ≡ false → without_slash (b ∷ bs) ≡ b ∷ bs
unfolding without_slash has_byte has_prefix
without_slash-other b bs h = ground arith

git_source-last :
    (before rest : List ℕ)
    → has_byte slash rest ≡ false
    → git_source ((https ++ before) ++ slash ∷ rest)
      ≡ source_of ((https ++ before) ++ slash ∷ [], rest)
unfolding git_source with_scheme has_prefix
git_source-last before rest h = ap source_of (path_split-last (https ++ before) rest h)

project_parts-whole :
    (name : List ℕ)
    → has_byte hash name ≡ false
    → has_suffix git_suffix name ≡ false
    → project_parts name ≡ (name, [])
unfolding project_parts
project_parts-whole name h k =
    rw (project_parts, cut_at-without hash [] name h, trim_suffix-other git_suffix name k) refl

project_parts-hash :
    (name sub : List ℕ)
    → has_byte hash name ≡ false
    → has_suffix git_suffix name ≡ false
    → project_parts (name ++ hash ∷ sub) ≡ (name, sub)
unfolding project_parts
project_parts-hash name sub h k =
    let first : cut_at (hash ∷ []) (name ++ hash ∷ sub) ≡ some (name, sub) =
      cut_at-first hash [] name sub h in
    rw (project_parts, first, trim_suffix-other git_suffix name k) refl

source_of-parts :
    (before rest name sub : List ℕ)
    → project_parts rest ≡ (name, sub)
    → source_of ((https ++ before) ++ slash ∷ [], rest)
      ≡ record { git_url = ((https ++ before) ++ slash ∷ name) ++ git_suffix; sub_path = sub }
unfolding source_of
source_of-parts before rest name sub h =
    ap
      (λ (p : List ℕ × List ℕ). record {
        git_url = ((https ++ before) ++ slash ∷ []) ++ (p.0 ++ git_suffix);
        sub_path = p.1;
      })
      h
    ∙ ap (λ (u : List ℕ). record { git_url = u; sub_path = sub })
        (append_assoc (https ++ before) (slash ∷ []) (name ++ git_suffix)
          ∙ sym (append_assoc (https ++ before) (slash ∷ name) git_suffix))

module _ (owner : List ℕ) (b : ℕ) (bs : List ℕ) where
  -- `https://owner/name`, with the name `b ∷ bs`.
  abbrev pub repository_url : List ℕ
  repository_url = (https ++ owner) ++ slash ∷ b ∷ bs

  build_install_url-other :
      (d : ℕ) (ds : List ℕ)
      → has_byte slash (b ∷ bs) ≡ false
      → has_byte slash (d ∷ []) ≡ false
      → build_install_url (some (record { url = repository_url; directory = d ∷ ds }))
        ≡ (https ++ owner) ++ slash ∷ ((b ∷ bs) ++ hash ∷ d ∷ ds)
  unfolding build_install_url
  build_install_url-other d ds name dir =
      let trimmed : trim_suffix (slash ∷ []) repository_url ≡ repository_url =
        trim_suffix-other (slash ∷ []) repository_url
          (has_suffix-part (https ++ owner) b bs name) in
      ap (λ s. s ++ hash ∷ without_slash (d ∷ ds)) trimmed
      ∙ (ap (λ t. repository_url ++ hash ∷ t) (without_slash-other d ds dir)
          ∙ append_assoc (https ++ owner) (slash ∷ b ∷ bs) (hash ∷ d ∷ ds))

  -- A repository at https://owner/name, whose name is not empty, has no slash and no # and does
  -- not end in .git, is cloned from its URL followed by .git, and the extension is looked for in
  -- its directory, if that has no slash.
  pub git_source-build_install_url :
      (directory : List ℕ)
      → has_byte slash (b ∷ bs) ≡ false
      → has_byte hash (b ∷ bs) ≡ false
      → has_suffix git_suffix (b ∷ bs) ≡ false
      → has_byte slash directory ≡ false
      → git_source
          (build_install_url (some (record { url = repository_url; directory = directory })))
        ≡ record { git_url = repository_url ++ git_suffix; sub_path = directory }
  unfolding build_install_url source_of has_byte
  git_source-build_install_url [] name hash_free other dir =
      git_source-last owner (b ∷ bs) name
      ∙ source_of-parts owner (b ∷ bs) (b ∷ bs) [] (project_parts-whole (b ∷ bs) hash_free other)
  git_source-build_install_url (d ∷ ds) name hash_free other dir =
      let free = has_byte-append slash (b ∷ bs) (hash ∷ d ∷ ds) name dir in
      let front : has_byte slash (d ∷ []) ≡ false = ground (arith, dir) in
      ap git_source (build_install_url-other d ds name front)
      ∙ (git_source-last owner ((b ∷ bs) ++ hash ∷ d ∷ ds) free
          ∙ source_of-parts owner ((b ∷ bs) ++ hash ∷ d ∷ ds) (b ∷ bs) (d ∷ ds)
              (project_parts-hash (b ∷ bs) (d ∷ ds) hash_free other))

  -- The same repository with a directory that has a slash, which does not stand at its front, and
  -- whose last part has no # and does not end in .git: the whole URL, with # and the directory, is
  -- cloned, and the extension is looked for at the top. The name of the repository has no slash
  -- and is not empty.
  pub git_source-nested :
      (d : ℕ) (ds sub : List ℕ)
      → has_byte slash (b ∷ bs) ≡ false
      → has_byte slash (d ∷ []) ≡ false
      → has_byte slash sub ≡ false
      → has_byte hash sub ≡ false
      → has_suffix git_suffix sub ≡ false
      → git_source (
          build_install_url
            (some (record { url = repository_url; directory = d ∷ (ds ++ slash ∷ sub) })))
        ≡ record {
          git_url = (repository_url ++ hash ∷ d ∷ (ds ++ slash ∷ sub)) ++ git_suffix;
          sub_path = [];
        }
  unfolding source_of
  git_source-nested d ds sub name front last hash_free other =
      let before : List ℕ = owner ++ slash ∷ ((b ∷ bs) ++ hash ∷ d ∷ ds) in
      let apart : (https ++ owner) ++ slash ∷ ((b ∷ bs) ++ hash ∷ d ∷ (ds ++ slash ∷ sub))
          ≡ (https ++ before) ++ slash ∷ sub =
        simp append_assoc in
      let joined : ((https ++ before) ++ slash ∷ sub) ++ git_suffix
          ≡ (repository_url ++ hash ∷ d ∷ (ds ++ slash ∷ sub)) ++ git_suffix =
        simp append_assoc in
      ap git_source (build_install_url-other d (ds ++ slash ∷ sub) name front ∙ apart)
      ∙ (git_source-last before sub last
          ∙ (source_of-parts before sub sub [] (project_parts-whole sub hash_free other)
              ∙ ap (λ (u : List ℕ). record { git_url = u; sub_path = [] }) joined))
