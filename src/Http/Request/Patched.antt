-- ===== src/Http/Request/Patched.antt =====
-- internal/protocol/http/fetcher.go: the requests after `Patch`.
use Prim.Native.String.{String}
use text.Mathlib.Text.{◌==◌ as str_eq}
use gopeed_torbox.Base.{◌≡◌, ◌∙◌, refl, Bool, true, false, Option, none, some, Assoc}
use gopeed_torbox.Download.Resource.{Extra, nil, typed, json, parse_extra}
use gopeed_torbox.Http.Request.{
  ReqExtra, Request, Target, request_url, update_redirect_url, patch, patch_url, patch_rest,
  patch_extra, patch_parsed,
}

module _ {J P : Type 0} (map_to_struct : J → Option ReqExtra) where
  request-patch_url :
      (u : String) (t : Target J P) (b : Bool)
      → str_eq u "" ≡ false
      → request_url b (patch_url u t) ≡ u
  unfolding patch_url request_url update_redirect_url
  request-patch_url u t true h = rw (h, patch_url) refl
  request-patch_url u t false h = rw (h, patch_url) refl

  request-patch_rest :
      (r : Request J P) (t : Target J P) (b : Bool)
      → request_url b (patch_rest r t) ≡ request_url b t
  unfolding patch_rest request_url
  request-patch_rest r t b = refl

  request-patch_extra :
      (e : ReqExtra) (t : Target J P) (b : Bool) → request_url b (patch_extra e t) ≡ request_url b t
  unfolding patch_extra request_url
  request-patch_extra e t b = refl

  request-patch_parsed :
      (r : Request J P) (x : Extra ReqExtra J × Bool) (t : Target J P) (b : Bool)
      → request_url b (patch_parsed r x t).0 ≡ request_url b t
  unfolding patch_parsed patch_rest
  request-patch_parsed r (nil, ok) t b = request-patch_rest r t b
  request-patch_parsed r (typed e, ok) t b =
      request-patch_rest r (patch_extra e t) b ∙ request-patch_extra e t b
  request-patch_parsed r (json j, ok) t b = refl

  -- After a patch with a URL every request goes to that URL, whether it may use the redirect or
  -- not, also if the patch returns an error.
  pub request-patch :
      (r : Request J P) (t : Target J P) (b : Bool)
      → str_eq r.url "" ≡ false
      → request_url b (patch map_to_struct (some r) t).0 ≡ r.url
  unfolding patch
  request-patch r t b h =
      request-patch_parsed r (parse_extra map_to_struct r.extra) (patch_url r.url t) b
      ∙ request-patch_url r.url t b h

  -- A patch whose extra part cannot be read returns an error, and has changed the URL and dropped the
  -- redirect all the same.
  pub patch-failed :
      (u : String) (j : J) (l : Option (Assoc String)) (p : Option P) (t : Target J P)
      → str_eq u "" ≡ false
      → map_to_struct j ≡ none
      → patch map_to_struct (some (record { url = u; extra = json j; labels = l; proxy = p })) t
        ≡ (record t { req = record t.req { url = u }; redirect_url = "" }, false)
  unfolding patch patch_url update_redirect_url parse_extra patch_parsed
  patch-failed u j l p t h e = rw (h, e, parse_extra) refl
