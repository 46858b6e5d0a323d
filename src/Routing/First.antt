-- ===== src/Routing/First.antt =====
-- The ordered router takes the first path that fits a request.
use easegress.Prelude.{
  ◌≡◌, refl, ap, Bool, true, false, ◌&&◌, Option, none, some, inl, inr, List, [], ◌∷◌, ◌++◌,
  if◌then◌else◌, Bool-cases, Option-cases,
}
use easegress.Prelude.Keys.{Bytes}
use easegress.Routing.{
  allow, Request, MuxPath, Rule, RouteContext, new_context, is_none, method_of, share_bit,
  headers_match, match, match_path, match_host, search_paths, search_rules,
}

-- Whether a path is for a request, its text apart.
unfoldable pub fits : Request → MuxPath → Bool
fits req p =
    if p.matchable
    then share_bit (method_of req.method) p.method
      && headers_match p.headers req.header p.match_all_header
      && headers_match p.queries req.query p.match_all_query
      && allow p.ip_filter req.real_ip
    else true

unfoldable pub wanted : Request → MuxPath → Bool
unfolding fits
wanted req p = match_path p req.path && fits req p

unfoldable pub first : (MuxPath → Bool) → List MuxPath → Option MuxPath
first f [] = none
first f (p ∷ ps) = let rest = first f ps in if f p then some p else rest

first-append :
    (f : MuxPath → Bool) (ps qs : List MuxPath)
    → first f (ps ++ qs) ≡ (if is_none (first f ps) then first f qs else first f ps)
unfolding first
first-append f [] qs = refl
first-append f (p ∷ ps) qs = elim (Bool-cases (f p)) [
  | inl e ↦ rw e refl
  | inr e ↦ rw e (first-append f ps qs)
]

record Flags : Type 0 where
  cacheable : Bool
  header : Bool
  method : Bool
  query : Bool
  ip : Bool

-- The contexts of a search for a request.
abbrev context : Request → Option MuxPath → Flags → RouteContext
context req route f = record {
  request = req;
  path = req.path;
  method = method_of req.method;
  cacheable = f.cacheable;
  route = route;
  header_mismatch = f.header;
  method_mismatch = f.method;
  query_mismatch = f.query;
  ip_mismatch = f.ip;
}

match-fits :
    (p : MuxPath) (req : Request) (f : Flags)
    → (f' : Flags) × (match p (context req none f) ≡ (fits req p, context req none f'))
unfolding match fits
match-fits p req f = elim (Bool-cases p.matchable) [
  | inr e ↦ (record f { cacheable = p.cacheable }, rw e refl)
  | inl e ↦ elim (Bool-cases (share_bit (method_of req.method) p.method)) [
    | inr m ↦ (record f { cacheable = p.cacheable; method = true }, rw (e, m) refl)
    | inl m ↦ elim (Bool-cases (headers_match p.headers req.header p.match_all_header)) [
      | inr h ↦ (record f { cacheable = p.cacheable; header = true }, rw (e, m, h) refl)
      | inl h ↦ elim (Bool-cases (headers_match p.queries req.query p.match_all_query)) [
        | inr q ↦ (record f { cacheable = p.cacheable; query = true }, rw (e, m, h, q) refl)
        | inl q ↦ elim (Bool-cases (allow p.ip_filter req.real_ip)) [
          | inr i ↦ (record f { cacheable = p.cacheable; ip = true }, rw (e, m, h, q, i) refl)
          | inl i ↦ (record f { cacheable = p.cacheable }, rw (e, m, h, q, i) refl)
        ]
      ]
    ]
  ]
]

module _ (split_host_port : Bytes → Option Bytes) where
  search_paths-first :
      (paths : List MuxPath) (req : Request) (f : Flags)
      → (f' : Flags) × (search_paths split_host_port paths (context req none f)
          ≡ context req (first (wanted req) paths) f')
  unfolding search_paths first wanted
  search_paths-first [] req f = (f, refl)
  search_paths-first (p ∷ paths) req f =
      let (f1, e) = match-fits p req f in
      elim (Bool-cases (match_path p req.path)) [
        | inr other ↦ let (f', e') = search_paths-first paths req f in (f', rw other e')
        | inl hit ↦ elim (Bool-cases (fits req p)) [
          | inl fit ↦ (f1, rw (hit, e, fit) refl)
          | inr unfit ↦
              let (f', e') = search_paths-first paths req f1 in (f', rw (hit, e, unfit) e')
        ]
      ]

  -- The paths of the rules for the request's host that allow its address, in their order.
  unfoldable pub candidates : Request → List Rule → List MuxPath
  candidates req [] = []
  candidates req (rule ∷ rules) =
      let rest = candidates req rules in
      if match_host split_host_port rule req && allow rule.ip_filter req.real_ip
      then rule.paths ++ rest
      else rest

  search_rules-first :
      (rules : List Rule) (req : Request) (f : Flags)
      → (f' : Flags) × (search_rules split_host_port rules (context req none f)
          ≡ context req (first (wanted req) (candidates req rules)) f')
  unfolding search_rules candidates first
  search_rules-first [] req f = (f, refl)
  search_rules-first (rule ∷ rules) req f =
      elim (Bool-cases (match_host split_host_port rule req)) [
        | inr other ↦ let (f', e) = search_rules-first rules req f in (f', rw other e)
        | inl here ↦ elim (Bool-cases (allow rule.ip_filter req.real_ip)) [
          | inr blocked ↦
              let (f', e) = search_rules-first rules req (record f { ip = true }) in
              (f', rw (here, blocked) e)
          | inl allowed ↦
              let (f1, e) = search_paths-first rule.paths req f in
              let apart = first-append (wanted req) rule.paths (candidates req rules) in
              elim (Option-cases (first (wanted req) rule.paths)) [
                | inr (p, e') ↦ (f1, rw (here, allowed, e, apart, e') refl)
                | inl e' ↦
                    let (f', g) = search_rules-first rules req f1 in
                    (f', rw (here, allowed, e, apart, e') g)
              ]
        ]
      ]

  -- The search for a request sets the route to the first path that fits the request among the paths,
  -- in their order, of the rules for its host that allow its address, and to none if there is none.
  pub search_rules_first :
      (rules : List Rule) (req : Request)
      → (search_rules split_host_port rules (new_context req)).route
        ≡ first (wanted req) (candidates req rules)
  unfolding new_context
  search_rules_first rules req =
      let fresh : Flags = record {
        cacheable = false;
        header = false;
        method = false;
        query = false;
        ip = false;
      } in
      let (f', e) = search_rules-first rules req fresh in ap (λ (c : RouteContext). c.route) e
