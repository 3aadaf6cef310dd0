-- ===== src/Http/Request.antt =====
-- internal/protocol/http/helper.go and fetcher.go: the request for a download, with its redirect URL, and
-- `Patch`, which changes it. `canonical` and `trim` stand for the canonical form of a header's key and
-- `strings.TrimSpace`; reading JSON is a parameter.
pub mod Patched
use Prim.Native.String.{String}
use text.Mathlib.Text.{◌==◌ as str_eq}
use gopeed_torbox.Base.{
  Bool, true, false, not, ◌&&◌, Option, none, some, List, [], ◌∷◌, if◌then◌else◌, Assoc, lookup,
  insert,
}
use gopeed_torbox.Download.Resource.{Extra, nil, typed, json, parse_extra}

pub record ReqExtra : Type 0 where
  pub method : String
  pub header : Option (Assoc String)
  pub body : String

-- J is what JSON gives for an extra part that is not parsed yet, and P a proxy's configuration.
pub record Request (J P : Type 0) : Type 0 where
  pub url : String
  pub extra : Extra ReqExtra J
  pub labels : Option (Assoc String)
  pub proxy : Option P

-- The fetcher's request and its redirect URL; "" is none.
pub record Target (J P : Type 0) : Type 0 where
  pub req : Request J P
  pub redirect_url : String

pub record HttpRequest : Type 0 where
  pub method : String
  pub url : String
  pub header : Assoc String
  pub body : String
  pub host : Option String

abbrev pub entries : Option (Assoc String) → Assoc String
entries none = []
entries (some m) = m

unfoldable pub empty_extra : ReqExtra
empty_extra = record { method = ""; header = none; body = "" }

-- `m[k] = v` for the entries of a map.
unfoldable pub merge_map : Assoc String → Assoc String → Assoc String
merge_map [] m = m
merge_map ((k, v) ∷ rest) m = merge_map rest (insert k v m)

abbrev pub merge_maps : Option (Assoc String) → Option (Assoc String) → Option (Assoc String)
unfolding merge_map
merge_maps none m = m
merge_maps (some new) m = some (merge_map new (entries m))

unfoldable pub merge_extra : ReqExtra → ReqExtra → ReqExtra
merge_extra new e = record e {
  method = if str_eq new.method "" then e.method else new.method;
  body = if str_eq new.body "" then e.body else new.body;
  header = merge_maps new.header e.header;
}

-- The extra part of the fetcher, which was parsed when the task was created or restored. Another one
-- would be a panic; here it stays.
abbrev pub existing : {J : Type 0} → (ReqExtra → ReqExtra) → Extra ReqExtra J → Extra ReqExtra J
unfolding empty_extra
existing f nil = typed (f empty_extra)
existing f (typed e) = typed (f e)
existing f (json j) = json j

abbrev pub or_proxy : {P : Type 0} → Option P → Option P → Option P
or_proxy none p = p
or_proxy (some q) p = some q

module _ (canonical trim : String → String) (user_agent : String) where
  unfoldable pub set_headers : Assoc String → Assoc String → Assoc String
  set_headers [] h = h
  set_headers ((k, v) ∷ rest) h = set_headers rest (insert (canonical k) (trim v) h)

  abbrev pub or_get : String → String
  or_get m = if str_eq m "" then "GET" else m

  abbrev pub with_user_agent : Assoc String → Option String → Assoc String
  with_user_agent h none = insert (canonical "User-Agent") (trim user_agent) h
  with_user_agent h (some v) = h

  abbrev pub host_of : Option String → Option String
  host_of none = none
  host_of (some h) = if str_eq h "" then none else some h

  unfoldable pub request_with : String → ReqExtra → HttpRequest
  unfolding set_headers
  request_with u e =
      let h = set_headers (entries e.header) [] in
      let header = with_user_agent h (lookup "User-Agent" h) in
      record {
        method = or_get e.method;
        url = u;
        header = header;
        body = e.body;
        host = host_of (lookup (canonical "Host") header);
      }

  -- `buildRequestWithURL`. An extra part that is not parsed would be a panic, here `none`.
  abbrev pub build_with : {J : Type 0} → String → Extra ReqExtra J → Option HttpRequest
  unfolding request_with empty_extra
  build_with u nil = some (request_with u empty_extra)
  build_with u (typed e) = some (request_with u e)
  build_with u (json j) = none

module _ {J P : Type 0} where
  unfoldable pub request_url : Bool → Target J P → String
  request_url use_redirect t =
      if use_redirect && not (str_eq t.redirect_url "") then t.redirect_url else t.req.url

  unfoldable pub has_redirect_url : Target J P → Bool
  has_redirect_url t = not (str_eq t.redirect_url "") && not (str_eq t.redirect_url t.req.url)

  unfoldable pub update_redirect_url : String → Target J P → Target J P
  update_redirect_url u t = record t { redirect_url = u }

  module _ (canonical trim : String → String) (user_agent : String) where
    unfoldable pub build_request_with_url : Bool → Target J P → Option HttpRequest
    unfolding request_url
    build_request_with_url use_redirect t =
        build_with canonical trim user_agent (request_url use_redirect t) t.req.extra

  unfoldable pub patch_url : String → Target J P → Target J P
  unfolding update_redirect_url
  patch_url u t =
      if str_eq u ""
      then t
      else update_redirect_url "" (record t { req = record t.req { url = u } })

  unfoldable pub patch_rest : Request J P → Target J P → Target J P
  patch_rest r t = record t {
    req = record t.req {
      labels = merge_maps r.labels t.req.labels;
      proxy = or_proxy r.proxy t.req.proxy;
    };
  }

  unfoldable pub patch_extra : ReqExtra → Target J P → Target J P
  unfolding merge_extra
  patch_extra e t = record t { req = record t.req { extra = existing (merge_extra e) t.req.extra } }

  -- After `ParseReqExtra`, whose error returns at once.
  abbrev pub patch_parsed : Request J P → Extra ReqExtra J × Bool → Target J P → Target J P × Bool
  unfolding patch_rest patch_extra
  patch_parsed r (nil, ok) t = (patch_rest r t, true)
  patch_parsed r (typed e, ok) t = (patch_rest r (patch_extra e t), true)
  patch_parsed r (json j, ok) t = (t, false)

  -- `Patch`: the target after it, and whether there is no error.
  unfoldable pub patch :
      (J → Option ReqExtra) → Option (Request J P) → Target J P → Target J P × Bool
  unfolding patch_url
  patch map_to_struct none t = (t, true)
  patch map_to_struct (some r) t =
      patch_parsed r (parse_extra map_to_struct r.extra) (patch_url r.url t)
