-- ===== src/Rest/Auth/Tokens.antt =====
-- pkg/rest/server.go: requests with the token of a login.
use gopeed_torbox.Base.{
  ℕ, ◌+◌, ◌≤◌, ◌≡◌, refl, ◌∙◌, ap, Bool, true, false, not, ◌&&◌, Option, none, some, List, [], ◌∷◌,
  ◌++◌, ◌==◌, arith, append_assoc, Bool-cases, inl, inr, bytes_eq,
}
use gopeed_torbox.Rest.Auth.{
  colon, WebAuth, AuthRequest, Verdict, served, unauthorized, split_colon, split_token, second_part,
  third_part, bearer, without_prefix, trim_prefix, token_life, login, check_web, check_data,
  check_parts, check, authorize,
}

-- No colon.
unfoldable pub colon_free : List ℕ → Bool
colon_free [] = true
colon_free (b ∷ bs) = not (b == colon) && colon_free bs

split_colon-free :
    (u rest : List ℕ) → colon_free u ≡ true → split_colon (u ++ colon ∷ rest) ≡ (u, some rest)
unfolding split_colon colon_free
split_colon-free [] rest h = refl
split_colon-free (b ∷ bs) rest h =
    let later = split_colon-free bs rest (ground (arith, h)) in
    let other : (b == colon) ≡ false = ground (arith, h) in rw (other, later) refl

some-split_colon :
    (s rest : List ℕ)
    → (p : List ℕ) × (t : List ℕ) × (split_colon (s ++ colon ∷ rest) ≡ (p, some t))
unfolding split_colon
some-split_colon [] rest = ([], rest, refl)
some-split_colon (b ∷ bs) rest =
    let (p, t, e) = some-split_colon bs rest in
    elim (Bool-cases (b == colon)) [
      | inl q ↦ ([], bs ++ colon ∷ rest, rw q refl)
      | inr q ↦ (b ∷ p, t, rw (q, e) refl)
    ]

bytes_eq-same : (s : List ℕ) → bytes_eq s s ≡ true
unfolding bytes_eq
bytes_eq-same [] = refl
bytes_eq-same (b ∷ bs) = ground (arith, bytes_eq-same bs)

bytes_eq-longer : (s : List ℕ) (b : ℕ) (bs : List ℕ) → bytes_eq s (s ++ b ∷ bs) ≡ false
unfolding bytes_eq
bytes_eq-longer [] b bs = refl
bytes_eq-longer (c ∷ cs) b bs = ground (arith, bytes_eq-longer cs b bs)

abbrev pub with_token : List ℕ → AuthRequest
with_token token = record {
  api_token_header = none;
  authorization = bearer ++ token;
  is_api = true;
  is_login = false;
}

token_text : WebAuth → List ℕ → List ℕ
token_text auth time = auth.username ++ (colon ∷ (auth.password ++ (colon ∷ time)))

split-token_text :
    (auth : WebAuth) (time : List ℕ)
    → colon_free auth.username ≡ true
    → colon_free auth.password ≡ true
    → split_token (token_text auth time) ≡ some (auth.username, auth.password, time)
unfolding split_token token_text
split-token_text auth time h k =
    ap second_part (split_colon-free auth.username (auth.password ++ (colon ∷ time)) h)
    ∙ ap (third_part auth.username) (split_colon-free auth.password time k)

module _ (encrypt : List ℕ → List ℕ) (decrypt : List ℕ → Option (List ℕ)) (print : ℕ → List ℕ)
    (atoi : List ℕ → ℕ) (opens : (s : List ℕ) → decrypt (encrypt s) ≡ some s) where
  check_with_token :
      (auth : WebAuth) (s : List ℕ) (now : ℕ)
      → check_web encrypt decrypt print atoi auth (with_token (encrypt s)) now
        ≡ check_parts encrypt decrypt print atoi auth now (split_token s)
  unfolding check_web trim_prefix without_prefix check_parts check_data
  check_with_token auth s now = rw (opens s) refl

  abbrev LoginOutcome : WebAuth → ℕ → ℕ → Verdict → Type 0
  LoginOutcome auth issued now v =
      (token : List ℕ) × (login encrypt decrypt print atoi auth auth issued ≡ some token)
      × (authorize encrypt decrypt print atoi (record { api_token = none; web_auth = some auth })
            (with_token token) now
          ≡ v)

  answered :
      (auth : WebAuth) (issued now : ℕ) (v : Verdict)
      → check_parts encrypt decrypt print atoi auth now
          (split_token (token_text auth (print issued)))
        ≡ v
      → LoginOutcome auth issued now v
  unfolding authorize check login token_text
  answered auth issued now v h =
      let s = token_text auth (print issued) in
      (
        encrypt s,
        rw (bytes_eq-same auth.username, bytes_eq-same auth.password) refl,
        check_with_token auth s now ∙ h,
      )

  -- If the username and the password have no colon, decryption undoes encryption, and the time of
  -- the login is read as it was printed, then the token of a login is accepted for requests to the
  -- API for seven days, where no API token is configured.
  pub login-served :
      (auth : WebAuth) (issued now : ℕ)
      → colon_free auth.username ≡ true
      → colon_free auth.password ≡ true
      → atoi (print issued) ≡ issued
      → now ≤ issued + token_life
      → LoginOutcome auth issued now served
  unfolding check_parts
  login-served auth issued now h k e l = answered auth issued now served (
      ap (check_parts encrypt decrypt print atoi auth now)
        (split-token_text auth (print issued) h k)
      ∙ ground (arith, bytes_eq-same auth.username, bytes_eq-same auth.password, e, l))

  -- If the username has a colon and decryption undoes encryption, the login succeeds, and a
  -- request to the API with its token is refused at any time, where no API token is configured.
  pub colon-unauthorized :
      (user more password : List ℕ) (issued now : ℕ)
      → colon_free user ≡ true
      → LoginOutcome
          (record { username = user ++ colon ∷ more; password = password })
          issued
          now
          unauthorized
  unfolding check_parts token_text split_token
  colon-unauthorized user more password issued now h =
      let auth : WebAuth = record { username = user ++ colon ∷ more; password = password } in
      let rest = more ++ (colon ∷ (password ++ (colon ∷ print issued))) in
      let (p, s, q) = some-split_colon more (password ++ (colon ∷ print issued)) in
      let parts : split_token (token_text auth (print issued)) ≡ some (user, p, s) =
        ap split_token
          (append_assoc user (colon ∷ more) (colon ∷ (password ++ (colon ∷ print issued))))
        ∙ ap second_part (split_colon-free user rest h)
        ∙ ap (third_part user) q in
      answered auth issued now unauthorized (
        ap (check_parts encrypt decrypt print atoi auth now) parts
        ∙ ground (arith, bytes_eq-longer user colon more))
