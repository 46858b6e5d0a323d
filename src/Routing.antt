-- ===== src/Routing.antt =====
-- The routes of an HTTP server: pkg/object/httpserver/routers, its routers.go and spec.go, and the
-- ordered router of ordered/router.go. Regular expressions, IP filters and net.SplitHostPort are
-- functions that the definitions are given. What a matched path does to the request's headers and path
-- (SetHeaders, Rewrite) is left out.
pub mod Methods
pub mod Mux
pub mod First
pub mod Cached
pub mod SharedKeys
mod Examples
use easegress.Prelude.{
  ℕ, ◌≡◌, Bool, true, false, not, ◌||◌, ◌&&◌, Option, none, some, List, [], ◌∷◌, ◌++◌,
  if◌then◌else◌, ◌==◌,
}
use easegress.Prelude.Keys.{Bytes, list_key, nat_key, lists_same}
use easegress.Prelude.Dict
use easegress.Prelude.Dict.{Dict}
pub use Methods.{
  MethodType, method_connect, method_delete, method_get, method_head, method_options, method_patch,
  method_post, method_put, method_trace, method_all, methods,
}
unfoldable pub use Methods.{method_of, share_bit, or_bits}

-- A compiled regular expression, and what an IP filter that is not nil allows.
abbrev pub Regexp : Type 0
Regexp = Bytes → Bool

abbrev pub IpFilter : Type 0
IpFilter = Bytes → Bool

-- `Allow`, for a filter that may be nil.
abbrev pub allow : Option IpFilter → Bytes → Bool
allow none ip = true
allow (some filter) ip = filter ip

-- What the search reads of a request: `header` and `query` are `Get`, empty for a missing key.
pub record Request : Type 0 where
  pub host : Bytes
  pub method : Bytes
  pub path : Bytes
  pub real_ip : Bytes
  pub header : Bytes → Bytes
  pub query : Bytes → Bytes

-- `Header` and `Query`. The compiled expression is there if the text is not empty.
pub record Header : Type 0 where
  pub key : Bytes
  pub values : List Bytes
  pub re : Option Regexp

pub record Host : Type 0 where
  pub is_regexp : Bool
  pub value : Bytes
  pub prefix : Bytes
  pub suffix : Bytes
  pub re : Option Regexp  -- nil if it does not compile

-- `muxPath`: a `Path` with its compiled expression.
pub record MuxPath : Type 0 where
  pub path : Bytes
  pub path_prefix : Bytes
  pub path_re : Option Regexp
  pub methods : List Bytes
  pub headers : List Header
  pub queries : List Header
  pub match_all_header : Bool
  pub match_all_query : Bool
  pub ip_filter : Option IpFilter
  pub method : MethodType
  pub cacheable : Bool
  pub matchable : Bool

-- `Rule`, with its paths in their order.
pub record Rule : Type 0 where
  pub ip_filter : Option IpFilter
  pub hosts : List Host
  pub paths : List MuxPath

pub record RouteContext : Type 0 where
  pub request : Request
  pub path : Bytes
  pub method : MethodType
  pub cacheable : Bool
  pub route : Option MuxPath
  pub header_mismatch : Bool
  pub method_mismatch : Bool
  pub query_mismatch : Bool
  pub ip_mismatch : Bool

unfoldable pub new_context : Request → RouteContext
unfolding method_of
new_context req = record {
  request = req;
  path = req.path;
  method = method_of req.method;
  cacheable = false;
  route = none;
  header_mismatch = false;
  method_mismatch = false;
  query_mismatch = false;
  ip_mismatch = false;
}

abbrev pub is_empty {ℓ} : {A : Type ℓ} → List A → Bool
is_empty [] = true
is_empty (x ∷ xs) = false

abbrev pub is_none {ℓ} : {A : Type ℓ} → Option A → Bool
is_none none = true
is_none (some a) = false

-- The methods of a path's spec.
unfoldable pub method_mask : List Bytes → MethodType
unfolding or_bits method_of
method_mask [] = []
method_mask (m ∷ ms) = or_bits (method_of m) (method_mask ms)

-- `Path.Init`, where its filter and expressions are made already.
unfoldable pub init_path : Option IpFilter → MuxPath → MuxPath
unfolding method_mask
init_path parent p =
    let mask = if is_empty p.methods then method_all else method_mask p.methods in
    let free = is_empty p.headers && is_empty p.queries && is_none p.ip_filter in
    record p {
      method = mask;
      cacheable = free && is_none parent || p.cacheable;
      matchable = not (free && is_empty p.methods);
    }

-- `stringtool.StrInSlice`
unfoldable pub str_in : Bytes → List Bytes → Bool
str_in s [] = false
str_in s (t ∷ ts) = lists_same (λ a b. a == b) t s || str_in s ts

abbrev pub re_matches : Option Regexp → Bytes → Bool
re_matches none v = false
re_matches (some re) v = re v

-- The two loops of `Headers.Match`, on what `Get` finds.
unfoldable pub match_all : (Bytes → Bytes) → List Header → Bool
unfolding str_in
match_all get [] = true
match_all get (h ∷ hs) =
    let v = get h.key in
    let rest = match_all get hs in
    if not (is_empty h.values) && not (str_in v h.values)
    then false
    else if not (is_none h.re) && not (re_matches h.re v)
    then false
    else rest

unfoldable pub match_any : (Bytes → Bytes) → List Header → Bool
unfolding str_in
match_any get [] = false
match_any get (h ∷ hs) =
    let v = get h.key in
    let rest = match_any get hs in
    if str_in v h.values then true else if re_matches h.re v then true else rest

unfoldable pub headers_match : List Header → (Bytes → Bytes) → Bool → Bool
unfolding match_all match_any
headers_match [] get all = true
headers_match (h ∷ hs) get all = if all then match_all get (h ∷ hs) else match_any get (h ∷ hs)

-- `Path.Match`
unfoldable pub match : MuxPath → RouteContext → Bool × RouteContext
unfolding share_bit headers_match
match p context =
    let c = record context { cacheable = p.cacheable } in
    let req = context.request in
    if not p.matchable
    then (true, c)
    else if not (share_bit context.method p.method)
    then (false, record c { method_mismatch = true })
    else if not (headers_match p.headers req.header p.match_all_header)
    then (false, record c { header_mismatch = true })
    else if not (headers_match p.queries req.query p.match_all_query)
    then (false, record c { query_mismatch = true })
    else if not (allow p.ip_filter req.real_ip)
    then (false, record c { ip_mismatch = true })
    else (true, c)

unfoldable pub has_prefix : Bytes → Bytes → Bool
has_prefix s [] = true
has_prefix [] (x ∷ p) = false
has_prefix (y ∷ s) (x ∷ p) = y == x && has_prefix s p

unfoldable pub match_path : MuxPath → Bytes → Bool
unfolding has_prefix
match_path mp path =
    if is_empty mp.path && is_empty mp.path_prefix && is_none mp.path_re
    then true
    else if not (is_empty mp.path) && lists_same (λ a b. a == b) mp.path path
    then true
    else if not (is_empty mp.path_prefix) && has_prefix path mp.path_prefix
    then true
    else re_matches mp.path_re path

unfoldable pub has_suffix : Bytes → Bytes → Bool
has_suffix [] p = is_empty p
has_suffix (y ∷ s) p = lists_same (λ a b. a == b) p (y ∷ s) || has_suffix s p

module _ (split_host_port : Bytes → Option Bytes) where
  unfoldable pub get_host : Request → Bytes
  get_host req = elim (split_host_port req.host) [ some h ↦ h | none ↦ req.host ]

  -- The loop of `MatchHost`.
  unfoldable pub match_hosts : Bytes → List Host → Bool
  unfolding has_prefix
  match_hosts host [] = false
  match_hosts host (h ∷ hs) =
      let rest = match_hosts host hs in
      if h.is_regexp
      then (if re_matches h.re host then true else rest)
      else if lists_same (λ a b. a == b) host h.value
      then true
      else if not (is_empty h.prefix) && has_prefix host h.prefix
      then true
      else if not (is_empty h.suffix) && has_suffix host h.suffix
      then true
      else rest

  unfoldable pub match_host : Rule → Request → Bool
  unfolding get_host match_hosts
  match_host rule req = if is_empty rule.hosts then true else match_hosts (get_host req) rule.hosts

  -- The paths of a rule, up to the one that matches.
  unfoldable pub search_paths : List MuxPath → RouteContext → RouteContext
  unfolding match_path match
  search_paths [] context = context
  search_paths (mp ∷ paths) context =
      let (matched, c) = match mp context in
      let hit = match_path mp context.path in
      let rest = search_paths paths (if hit then c else context) in
      if hit && matched then record c { route = some mp } else rest

  -- `Search` of the ordered router. A route that is set ends it.
  unfoldable pub search_rules : List Rule → RouteContext → RouteContext
  unfolding match_host search_paths
  search_rules [] context = context
  search_rules (rule ∷ rules) context =
      let here = match_host rule context.request in
      let allowed = allow rule.ip_filter context.request.real_ip in
      let c = search_paths rule.paths context in
      let next =
        if not here
        then context
        else if allowed
        then c
        else record context { ip_mismatch = true } in
      let rest = search_rules rules next in
      if here && allowed && not (is_none c.route) then c else rest
