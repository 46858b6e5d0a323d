-- ===== src/Routing/SharedKeys.antt =====
-- Requests for different hosts may share a key of the cache of routes: the host, the method and the
-- path are put together without a mark between them.
use easegress.Prelude.{
  ◌≡◌, refl, sym, ap, ◌∙◌, true, false, Option, none, some, List, [], ◌∷◌, ◌++◌, All,
}
use mathlib.Core.List.{append_assoc}
use easegress.Prelude.Keys.{Bytes}
use easegress.Routing.{allow, Request, Rule, RouteContext, new_context, match_host, search_rules}
use easegress.Routing.Mux.{
  CachedRoute, not_found, RouteCache, MuxInstance, cache_key, decide, get_route_from_cache,
  put_route_to_cache, search,
}

-- A request with the host and the method given.
abbrev pub asks : Request → Bytes → Bytes → Request
asks r host method = record r { host = host; method = method }

shared_key :
    (r : Request) (host front back : Bytes)
    → cache_key (asks r host (front ++ back)) ≡ cache_key (asks r (host ++ front) back)
unfolding cache_key
shared_key r host front back = simp append_assoc refl

module _ (lru : RouteCache) (split_host_port : Bytes → Option Bytes) where
  open lru use {Cache, find, touch, add, find-touch, find-add, find-added}

  unknown_host :
      (rules : List Rule) (context : RouteContext)
      → All (λ rule. match_host split_host_port rule context.request ≡ false) rules
      → search_rules split_host_port rules context ≡ context
  unfolding search_rules
  unknown_host [] context h = refl
  unknown_host (rule ∷ rules) context (h, hs) = rw h (unknown_host rules context hs)

  keeps_not_found :
      (mi : MuxInstance) (req : Request) (c : Cache)
      → All (λ rule. match_host split_host_port rule req ≡ false) mi.rules
      → allow mi.ip_filter req.real_ip ≡ true
      → find c (cache_key req) ≡ none
      → search lru split_host_port mi req (some c)
        ≡ (not_found, some (add (touch c (cache_key req)) (cache_key req) not_found))
  unfolding search get_route_from_cache put_route_to_cache decide new_context
  keeps_not_found mi req c h allowed e =
      rw (allowed, e, unknown_host mi.rules (new_context req) h) refl

  -- A request for a host that no rule matches, from an address that the server allows, with a method
  -- that ends in `back`, is kept as not found in a cache that has nothing for it. If the rest of the method, `front`, makes the host that the
  -- rules match, then the request for that host with the method `back` gets not found as well,
  -- whatever the rules say.
  pub not_found_shared :
      (mi : MuxInstance) (r : Request) (host front back : Bytes) (c : Cache)
      → All (λ rule. match_host split_host_port rule (asks r host (front ++ back)) ≡ false) mi.rules
      → allow mi.ip_filter r.real_ip ≡ true
      → find c (cache_key (asks r host (front ++ back))) ≡ none
      → (search lru split_host_port mi
          (asks r (host ++ front) back)
          (search lru split_host_port mi (asks r host (front ++ back)) (some c)).1).0
        ≡ not_found
  unfolding search get_route_from_cache
  not_found_shared mi r host front back c h allowed e =
      let k = cache_key (asks r host (front ++ back)) in
      let hit : find (add (touch c k) k not_found) (cache_key (asks r (host ++ front) back))
          ≡ some not_found =
        ap (find (add (touch c k) k not_found)) (sym (shared_key r host front back))
        ∙ find-add (touch c k) k not_found in
      ap
        (λ (x : CachedRoute × Option Cache).
          (search lru split_host_port mi (asks r (host ++ front) back) x.1).0)
        (keeps_not_found mi (asks r host (front ++ back)) c h allowed e)
      ∙ rw (allowed, hit) refl
