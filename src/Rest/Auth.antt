-- ===== src/Rest/Auth.antt =====
-- pkg/rest/server.go: the login and the check that the server makes of a request before it serves it. A
-- text is the list of its bytes. Encryption, the printing of a number and `strconv.Atoi` are parameters.
pub mod Tokens
use gopeed_torbox.Base.{
  ℕ, ◌+◌, ◌-◌, ◌*◌, Bool, true, false, not, ◌&&◌, ◌||◌, Option, none, some, List, [], ◌∷◌, ◌++◌,
  ltb, ◌==◌, if◌then◌else◌, bytes_eq,
}

abbrev pub colon : ℕ
colon = 58

pub record WebAuth : Type 0 where
  pub username : List ℕ
  pub password : List ℕ

-- `api_token` is `none` where it is empty, and `web_auth` where the web interface or its login is off.
pub record AuthConfig : Type 0 where
  pub api_token : Option (List ℕ)
  pub web_auth : Option WebAuth

-- The header `X-Api-Token`, the header `Authorization`, and what the path is.
pub record AuthRequest : Type 0 where
  pub api_token_header : Option (List ℕ)
  pub authorization : List ℕ
  pub is_api : Bool
  pub is_login : Bool

-- A panic is answered with an error by the handler that recovers from it.
pub data Verdict : Type 0 where
  served unauthorized panicked : Verdict

-- The part before the first colon, and what follows it.
unfoldable pub split_colon : List ℕ → List ℕ × Option (List ℕ)
split_colon [] = ([], none)
split_colon (b ∷ bs) =
    let rest = split_colon bs in if b == colon then ([], some bs) else (b ∷ rest.0, rest.1)

-- `strings.SplitN(s, ":", 3)`, of which the code reads three parts.
abbrev pub third_part : List ℕ → List ℕ × Option (List ℕ) → Option (List ℕ × List ℕ × List ℕ)
third_part u (p, none) = none
third_part u (p, some t) = some (u, p, t)

abbrev pub second_part : List ℕ × Option (List ℕ) → Option (List ℕ × List ℕ × List ℕ)
unfolding split_colon
second_part (u, none) = none
second_part (u, some rest) = third_part u (split_colon rest)

unfoldable pub split_token : List ℕ → Option (List ℕ × List ℕ × List ℕ)
unfolding split_colon
split_token s = second_part (split_colon s)

-- `Bearer `
abbrev pub bearer : List ℕ
bearer = 66 ∷ 101 ∷ 97 ∷ 114 ∷ 101 ∷ 114 ∷ 32 ∷ []

-- `strings.TrimPrefix`
unfoldable pub without_prefix : List ℕ → List ℕ → Option (List ℕ)
without_prefix [] s = some s
without_prefix (p ∷ ps) [] = none
without_prefix (p ∷ ps) (b ∷ bs) = if p == b then without_prefix ps bs else none

abbrev pub or_whole : List ℕ → Option (List ℕ) → List ℕ
or_whole s none = s
or_whole s (some t) = t

unfoldable pub trim_prefix : List ℕ → List ℕ → List ℕ
unfolding without_prefix
trim_prefix p s = or_whole s (without_prefix p s)

-- Seven days, in seconds.
abbrev pub token_life : ℕ
token_life = 7 * 24 * 3600

abbrev pub is_no_text : List ℕ → Bool
is_no_text [] = true
is_no_text (b ∷ bs) = false

module _ (encrypt : List ℕ → List ℕ) (decrypt : List ℕ → Option (List ℕ)) (print : ℕ → List ℕ)
    (atoi : List ℕ → ℕ) where
  -- The token that a login is answered with, at a time in seconds. A failed encryption is not modelled.
  unfoldable pub login : WebAuth → WebAuth → ℕ → Option (List ℕ)
  unfolding bytes_eq
  login auth given now =
      if bytes_eq given.username auth.username && bytes_eq given.password auth.password
      then some (encrypt (given.username ++ (colon ∷ (given.password ++ (colon ∷ print now)))))
      else none

  abbrev pub check_parts : WebAuth → ℕ → Option (List ℕ × List ℕ × List ℕ) → Verdict
  unfolding bytes_eq
  check_parts auth now none = panicked
  check_parts auth now (some (username, password, timestamp)) =
      if not (bytes_eq username auth.username) || not (bytes_eq password auth.password)
      then unauthorized
      else if ltb token_life (now - atoi timestamp)
      then unauthorized
      else served

  abbrev pub check_data : WebAuth → ℕ → Option (List ℕ) → Verdict
  unfolding split_token
  check_data auth now none = unauthorized
  check_data auth now (some s) = check_parts auth now (split_token s)

  unfoldable pub check_web : WebAuth → AuthRequest → ℕ → Verdict
  unfolding trim_prefix
  check_web auth r now =
      if not r.is_api || r.is_login
      then served
      else if is_no_text r.authorization
      then unauthorized
      else check_data auth now (decrypt (trim_prefix bearer r.authorization))

  abbrev pub check_login : Option WebAuth → AuthRequest → ℕ → Verdict
  unfolding check_web
  check_login none r now = unauthorized
  check_login (some auth) r now = check_web auth r now

  abbrev pub check_token : List ℕ → Option WebAuth → AuthRequest → ℕ → Option (List ℕ) → Verdict
  unfolding bytes_eq
  check_token token auth r now none = check_login auth r now
  check_token token auth r now (some h) = if bytes_eq h token then served else unauthorized

  -- Without a token and a login every request is served.
  abbrev pub check : Option (List ℕ) → Option WebAuth → AuthRequest → ℕ → Verdict
  unfolding check_web
  check none none r now = served
  check none (some auth) r now = check_web auth r now
  check (some token) auth r now = check_token token auth r now r.api_token_header

  unfoldable pub authorize : AuthConfig → AuthRequest → ℕ → Verdict
  authorize c r now = check c.api_token c.web_auth r now
