-- ===== src/Routing/Cached.antt =====
-- The cache of routes where no path or rule has a condition of its own on a request.
use easegress.Prelude.{
  ◌≡◌, refl, sym, ap, ◌∙◌, Bool, Option, none, some, inl, inr, List, [], ◌∷◌, map, All, Bool-cases,
  Option-cases,
}
use easegress.Prelude.Keys.{Bytes}
use easegress.Routing.{
  allow, Request, MuxPath, Rule, RouteContext, new_context, is_none, method_of, share_bit,
  headers_match, match, match_path, get_host, match_host, search_paths, search_rules,
}
use easegress.Routing.Mux.{
  CachedRoute, RouteCache, MuxInstance, cache_key, decide, get_route_from_cache, put_route_to_cache,
  search,
}

pub record IsPlainPath (p : MuxPath) : Type 0 where
  pub headers : p.headers ≡ []
  pub queries : p.queries ≡ []
  pub filter : p.ip_filter ≡ none

pub record IsPlain (rule : Rule) : Type 0 where
  pub filter : rule.ip_filter ≡ none
  pub paths : All IsPlainPath rule.paths

abbrev with_request : Request → RouteContext → RouteContext
with_request req c = record c { request = req }

match_plain :
    (p : MuxPath) (req : Request) (c : RouteContext)
    → IsPlainPath p
    → match p (with_request req c) ≡ ((match p c).0, with_request req (match p c).1)
unfolding match headers_match
match_plain p req c h =
    rw (h.headers, h.queries, h.filter)
      (elim (Bool-cases p.matchable) [
        | inr e ↦ rw e refl
        | inl e ↦ elim (Bool-cases (share_bit c.method p.method)) [
          | inr m ↦ rw (e, m) refl
          | inl m ↦ rw (e, m) refl
        ]
      ])

module _ (split_host_port : Bytes → Option Bytes) where
  match_host_of :
      (rule : Rule) (r1 r2 : Request)
      → r1.host ≡ r2.host
      → match_host split_host_port rule r1 ≡ match_host split_host_port rule r2
  unfolding match_host get_host
  match_host_of rule r1 r2 e = ap (λ h. match_host split_host_port rule (record r1 { host = h })) e

  search_paths_plain :
      (paths : List MuxPath) (req : Request) (c : RouteContext)
      → All IsPlainPath paths
      → search_paths split_host_port paths (with_request req c)
        ≡ with_request req (search_paths split_host_port paths c)
  unfolding search_paths
  search_paths_plain [] req c h = refl
  search_paths_plain (p ∷ paths) req c (h, hs) = elim (Bool-cases (match_path p c.path)) [
    | inr other ↦ rw other (search_paths_plain paths req c hs)
    | inl hit ↦ elim (Bool-cases (match p c).0) [
      | inl fit ↦ rw (hit, match_plain p req c h, fit) refl
      | inr unfit ↦
          rw (hit, match_plain p req c h, unfit) (search_paths_plain paths req (match p c).1 hs)
    ]
  ]

  search_rules_plain :
      (rules : List Rule) (req : Request) (c : RouteContext)
      → All IsPlain rules
      → c.request.host ≡ req.host
      → search_rules split_host_port rules (with_request req c)
        ≡ with_request req (search_rules split_host_port rules c)
  unfolding search_rules
  search_rules_plain [] req c h e = refl
  search_rules_plain (rule ∷ rules) req c (h, hs) e =
      let g : match_host split_host_port rule req ≡ match_host split_host_port rule c.request =
        sym (match_host_of rule c.request req e) in
      let c' = search_paths split_host_port rule.paths c in
      let k : c'.request.host ≡ req.host =
        ap (λ (d : RouteContext). d.request.host)
          (search_paths_plain rule.paths c.request c h.paths)
        ∙ e in
      rw (h.filter) (elim (Bool-cases (match_host split_host_port rule c.request)) [
        | inr other ↦ rw (g ∙ other, other) (search_rules_plain rules req c hs e)
        | inl here ↦ elim (Bool-cases (is_none c'.route)) [
          | inr set ↦ rw (g ∙ here, here, search_paths_plain rule.paths req c h.paths, set) refl
          | inl open' ↦
              rw (g ∙ here, here, search_paths_plain rule.paths req c h.paths, open')
                (search_rules_plain rules req c' hs k)
        ]
      ])

  -- What is found without the cache.
  abbrev pub answer : MuxInstance → Request → CachedRoute × Bool
  answer mi req = decide (search_rules split_host_port mi.rules (new_context req))

  answer_of :
      (mi : MuxInstance) (r1 r2 : Request)
      → All IsPlain mi.rules
      → r1.host ≡ r2.host
      → r1.method ≡ r2.method
      → r1.path ≡ r2.path
      → answer mi r1 ≡ answer mi r2
  unfolding decide new_context
  answer_of mi r1 r2 h e m p =
      let c1 = new_context r1 in
      let same : new_context r2 ≡ with_request r2 c1 =
        ap (λ (x : Bytes × Bytes). record c1 { request = r2; path = x.0; method = method_of x.1 })
          (ap (λ y. (y, r2.method)) (sym p) ∙ ap (λ y. (r1.path, y)) (sym m)) in
      sym (
        ap decide
          (ap (search_rules split_host_port mi.rules) same ∙ search_rules_plain mi.rules r2 c1 h e))

  module _ (lru : RouteCache) where
    open lru use {Cache, find, touch, add, find-touch, find-add, find-added}

    -- The requests of `P` that share a key are for the same host, method and path.
    abbrev pub HasKeys : (Request → Type 0) → Type 0
    HasKeys P =
        (r1 r2 : Request)
        → P r1
        → P r2
        → cache_key r1 ≡ cache_key r2
        → (r1.host ≡ r2.host) × (r1.method ≡ r2.method) × (r1.path ≡ r2.path)

    -- Every entry is what is found for a request of `P` with its key without the cache.
    abbrev pub IsCoherent : (Request → Type 0) → MuxInstance → Option Cache → Type 0
    IsCoherent P mi none = Unit
    IsCoherent P mi (some c) =
        (req : Request) (v : CachedRoute)
        → P req
        → find c (cache_key req) ≡ some v
        → v ≡ (answer mi req).0

    touched_lem :
        (P : Request → Type 0) (mi : MuxInstance) (req : Request) (c : Cache)
        → IsCoherent P mi (some c)
        → IsCoherent P mi (some (touch c (cache_key req)))
    touched_lem P mi req c h r v p e = h r v p (find-touch c (cache_key req) (cache_key r) v e)

    put_lem :
        (P : Request → Type 0) (mi : MuxInstance) (req : Request) (c : Cache)
        → All IsPlain mi.rules
        → HasKeys P
        → P req
        → IsCoherent P mi (some c)
        → IsCoherent P mi (some (add c (cache_key req) (answer mi req).0))
    put_lem P mi req c plain keys q h r v p e =
        elim (find-added c (cache_key req) (cache_key r) (answer mi req).0 v e) [
          | inl (k, w) ↦
              let (eh, em, ep) = keys req r q p k in
              sym w ∙ ap (λ x. x.0) (answer_of mi req r plain eh em ep)
          | inr old ↦ h r v p old
        ]

    search-uncached :
        (P : Request → Type 0) (mi : MuxInstance) (req : Request) (cache : Option Cache)
        → All IsPlain mi.rules
        → HasKeys P
        → P req
        → IsCoherent P mi cache
        → ((search lru split_host_port mi req cache).0 ≡ (search lru split_host_port mi req none).0)
          × IsCoherent P mi (search lru split_host_port mi req cache).1
    unfolding search get_route_from_cache put_route_to_cache
    search-uncached P mi req none plain keys q h =
        elim (Bool-cases (allow mi.ip_filter req.real_ip)) [
          | inr blocked ↦ rw blocked (refl, tt)
          | inl allowed ↦ elim (Bool-cases (answer mi req).1) [
            | inl keep ↦ rw (allowed, keep) (refl, tt)
            | inr free ↦ rw (allowed, free) (refl, tt)
          ]
        ]
    search-uncached P mi req (some c) plain keys q h =
        let t = touched_lem P mi req c h in
        elim (Bool-cases (allow mi.ip_filter req.real_ip)) [
          | inr blocked ↦ rw blocked (refl, h)
          | inl allowed ↦ elim (Option-cases (find c (cache_key req))) [
            | inr (v, e) ↦ rw (allowed, e) (h req v q e, t)
            | inl e ↦ elim (Bool-cases (answer mi req).1) [
              | inl keep ↦
                  rw (allowed, e, keep)
                    (refl, put_lem P mi req (touch c (cache_key req)) plain keys q t)
              | inr free ↦ rw (allowed, e, free) (refl, t)
            ]
          ]
        ]

    -- The answers to requests one after the other.
    unfoldable pub answers : MuxInstance → List Request → Option Cache → List CachedRoute
    answers mi [] cache = []
    answers mi (req ∷ reqs) cache =
        let (r, cache') = search lru split_host_port mi req cache in r ∷ answers mi reqs cache'

    -- Where no rule has an IP filter and no path has headers, queries or an IP filter, requests one
    -- after the other are answered as without the cache, whatever the cache drops, if those that share
    -- a key are for the same host, method and path, and the cache holds at the start, if anything, what
    -- is found without it.
    pub answers-uncached :
        (P : Request → Type 0) (mi : MuxInstance) (reqs : List Request) (cache : Option Cache)
        → All IsPlain mi.rules
        → HasKeys P
        → All P reqs
        → IsCoherent P mi cache
        → answers mi reqs cache ≡ map (λ req. (search lru split_host_port mi req none).0) reqs
    unfolding answers
    answers-uncached P mi [] cache plain keys q h = refl
    answers-uncached P mi (req ∷ reqs) cache plain keys (q, qs) h =
        let (e, h') = search-uncached P mi req cache plain keys q h in
        let rest =
          answers-uncached P mi reqs (search lru split_host_port mi req cache).1 plain keys qs h' in
        ap (λ r. r ∷ answers mi reqs (search lru split_host_port mi req cache).1) e
        ∙ ap (λ rs. (search lru split_host_port mi req none).0 ∷ rs) rest
