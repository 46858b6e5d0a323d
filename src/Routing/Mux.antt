-- ===== src/Routing/Mux.antt =====
-- `muxInstance` of pkg/object/httpserver/mux.go: the search for a route behind the cache of routes.
use easegress.Prelude.{
  ℕ, ◌≡◌, ◌⊎◌, Bool, true, false, not, ◌||◌, Option, none, some, List, ◌++◌, if◌then◌else◌,
}
use easegress.Prelude.Keys.{Bytes}
use easegress.Routing.{
  IpFilter, allow, Request, MuxPath, Rule, RouteContext, new_context, search_rules,
}

-- `cachedRoute`: a route, with the code 0, or the code of a failure.
pub data CachedRoute : Type 0 where
  found : MuxPath → CachedRoute
  failed : ℕ → CachedRoute

abbrev pub not_found : CachedRoute
not_found = failed 404

abbrev pub forbidden : CachedRoute
forbidden = failed 403

abbrev pub method_not_allowed : CachedRoute
method_not_allowed = failed 405

abbrev pub bad_request : CachedRoute
bad_request = failed 400

-- The cache of hashicorp/golang-lru. `Get` may change which entry goes next, and `Add` may drop any
-- entry but the one it adds: a value found for a key is one that was added for it.
pub record RouteCache : Type 1 where
  pub Cache : Type 0
  pub find : Cache → Bytes → Option CachedRoute
  pub touch : Cache → Bytes → Cache
  pub add : Cache → Bytes → CachedRoute → Cache
  pub find-touch :
      (c : Cache) (k j : Bytes) (v : CachedRoute) → find (touch c k) j ≡ some v → find c j ≡ some v
  pub find-add : (c : Cache) (k : Bytes) (v : CachedRoute) → find (add c k v) k ≡ some v
  pub find-added :
      (c : Cache) (k j : Bytes) (v w : CachedRoute)
      → find (add c k v) j ≡ some w
      → ((k ≡ j) × (v ≡ w)) ⊎ (find c j ≡ some w)

pub record MuxInstance : Type 0 where
  pub ip_filter : Option IpFilter
  pub rules : List Rule

unfoldable pub cache_key : Request → Bytes
cache_key req = req.host ++ req.method ++ req.path

-- What the end of `search` answers from the context, and whether it goes to the cache.
unfoldable pub decide : RouteContext → CachedRoute × Bool
decide context = elim context.route [
  | some route ↦ (found route, context.cacheable)
  | none ↦
      if context.ip_mismatch
      then (forbidden, false)
      else if context.header_mismatch || context.query_mismatch
      then (bad_request, false)
      else if context.method_mismatch
      then (method_not_allowed, true)
      else (not_found, true)
]

module _ (lru : RouteCache) (split_host_port : Bytes → Option Bytes) where
  open lru use {Cache, find, touch, add, find-add}

  -- `getRouteFromCache` and `putRouteToCache`. `none` is no cache.
  unfoldable pub get_route_from_cache : Request → Option Cache → Option CachedRoute × Option Cache
  unfolding cache_key
  get_route_from_cache req none = (none, none)
  get_route_from_cache req (some c) = (find c (cache_key req), some (touch c (cache_key req)))

  unfoldable pub put_route_to_cache : Request → CachedRoute → Option Cache → Option Cache
  unfolding cache_key
  put_route_to_cache req r none = none
  put_route_to_cache req r (some c) = some (add c (cache_key req) r)

  -- `search`, over the ordered router, with the cache after it.
  unfoldable pub search : MuxInstance → Request → Option Cache → CachedRoute × Option Cache
  unfolding decide get_route_from_cache put_route_to_cache new_context search_rules
  search mi req cache =
      let (answer, keep) = decide (search_rules split_host_port mi.rules (new_context req)) in
      let (cached, c) = get_route_from_cache req cache in
      if not (allow mi.ip_filter req.real_ip) then (forbidden, cache) else elim cached [
        | some r ↦ (r, c)
        | none ↦ (answer, if keep then put_route_to_cache req answer c else c)
      ]
