-- ===== src/Rest/Tests.antt =====
-- Examples for the REST server.
use gopeed_torbox.Base.{ℕ, ◌≡◌, refl, Option, none, some, List, [], ◌∷◌, arith}
use gopeed_torbox.Rest.Auth.{WebAuth, authorize, login, served}
use gopeed_torbox.Rest.Auth.Tokens.{colon_free, with_token, login-served}

abbrev plain_text : List ℕ → List ℕ
plain_text s = s

abbrev opened : List ℕ → Option (List ℕ)
opened s = some s

-- A time printed as one digit.
abbrev digit : ℕ → List ℕ
digit n = n ∷ []

abbrev value : List ℕ → ℕ
value [] = 0
value (b ∷ bs) = b

abbrev account : WebAuth
account = record { username = 97 ∷ []; password = 98 ∷ [] }

login-served_example :
    (token : List ℕ) × (login plain_text opened digit value account account 5 ≡ some token)
    × (authorize plain_text opened digit value
          (record { api_token = none; web_auth = some account })
          (with_token token)
          9
        ≡ served)
unfolding colon_free
login-served_example =
    login-served plain_text opened digit value (λ s. refl) account 5 9 refl refl refl (omega arith)
