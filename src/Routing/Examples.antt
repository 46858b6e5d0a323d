-- ===== src/Routing/Examples.antt =====
-- The theorems on routes at concrete inputs, and the search at concrete values.
use easegress.Prelude.{
  ℕ, ◌≡◌, ◌⊎◌, refl, sym, ◌∙◌, Bool, true, false, Option, none, some, inl, inr, List, [], ◌∷◌, ◌++◌,
  map, arith, ◌==◌, ==_iff, Bool-cases, All,
}
use easegress.Prelude.Keys.{Bytes, list_key, nat_key, lists_same_iff, same_refl, Key}
use easegress.Prelude.Dict
use easegress.Prelude.Dict.{Dict, get-put}
use easegress.Routing.{
  Request, MuxPath, Rule, Host, init_path, match_host, new_context, search_rules,
}
use easegress.Routing.Mux.{
  CachedRoute, found, not_found, RouteCache, MuxInstance, cache_key, search,
}
use easegress.Routing.First.{wanted, first, candidates, search_rules_first}
use easegress.Routing.Cached.{IsPlain, answers, answers-uncached}
use easegress.Routing.SharedKeys.{asks, not_found_shared}

abbrev no_port : Bytes → Option Bytes
no_port host = none

found-put :
    (c : Dict Bytes CachedRoute) (k j : Bytes) (v w : CachedRoute)
    → Dict.get (Dict.put c k v) j ≡ some w
    → ((k ≡ j) × (v ≡ w)) ⊎ (Dict.get c j ≡ some w)
found-put c k j v w h = elim (Bool-cases (list_key.same k j)) [
  | inl e ↦ inl ((list_key.same_iff k j).0 e, ground (arith, get-put c k j v))
  | inr e ↦ inr (ground (arith, get-put c k j v))
]

abbrev keep_all : RouteCache
keep_all = record {
  Cache = Dict Bytes CachedRoute;
  find = λ c k. Dict.get c k;
  touch = λ c k. c;
  add = λ c k v. Dict.put c k v;
  find-touch = λ c k j v h. h;
  find-add = λ c k v. get-put c k k v ∙ rw (same_refl k) refl;
  find-added = found-put;
}

abbrev get_name : Bytes
get_name = 71 ∷ 69 ∷ 84 ∷ []

abbrev plain_path : MuxPath
plain_path = init_path none (record {
  path = 47 ∷ [];
  path_prefix = [];
  path_re = none;
  methods = [];
  headers = [];
  queries = [];
  match_all_header = false;
  match_all_query = false;
  ip_filter = none;
  method = [];
  cacheable = false;
  matchable = false;
})

-- One path for the requests whose header has the value 1, before a path for all of them.
abbrev header_path : MuxPath
header_path = init_path none (record plain_path {
  headers = record { key = 88 ∷ []; values = (49 ∷ []) ∷ []; re = none } ∷ [];
  cacheable = false;
})

abbrev ab_host : Host
ab_host = record { is_regexp = false; value = 97 ∷ 98 ∷ []; prefix = []; suffix = []; re = none }

abbrev ab_rule : Rule
ab_rule = record { ip_filter = none; hosts = ab_host ∷ []; paths = plain_path ∷ [] }

abbrev two_paths : Rule
two_paths = record { ip_filter = none; hosts = []; paths = header_path ∷ plain_path ∷ [] }

abbrev ab : MuxInstance
ab = record { ip_filter = none; rules = ab_rule ∷ [] }

abbrev both : MuxInstance
both = record { ip_filter = none; rules = two_paths ∷ [] }

abbrev request : Request
request = record {
  host = 97 ∷ 98 ∷ [];
  method = get_name;
  path = 47 ∷ [];
  real_ip = [];
  header = λ k. [];
  query = λ k. [];
}

abbrev with_header : Request
with_header = record request { header = λ k. 49 ∷ [] }

abbrev nothing_kept : Dict Bytes CachedRoute
nothing_kept = []

search_rules_first_example :
    (search_rules no_port (two_paths ∷ []) (new_context with_header)).route
    ≡ first (wanted with_header) (candidates no_port with_header (two_paths ∷ []))
search_rules_first_example = search_rules_first no_port (two_paths ∷ []) with_header

-- Requests for one host, method and path.
abbrev IsHere : Request → Type 0
IsHere r = (r.host ≡ request.host) × (r.method ≡ request.method) × (r.path ≡ request.path)

ab_rule-IsPlain : IsPlain ab_rule
unfolding init_path
ab_rule-IsPlain = record {
  filter = refl;
  paths = (record { headers = refl; queries = refl; filter = refl }, tt);
}

answers-uncached_example :
    answers no_port keep_all ab (request ∷ with_header ∷ []) (some nothing_kept)
    ≡ map (λ req. (search keep_all no_port ab req none).0) (request ∷ with_header ∷ [])
unfolding Dict.get
answers-uncached_example =
    answers-uncached no_port keep_all IsHere ab (request ∷ with_header ∷ []) (some nothing_kept)
      (ab_rule-IsPlain, tt) (λ r1 r2 p q k. (p.0 ∙ sym q.0, p.1 ∙ sym q.1, p.2 ∙ sym q.2))
      ((refl, refl, refl), ((refl, refl, refl), tt)) (λ r v p e. cc)

-- The host a with the method bGET, and the host ab with the method GET.
other_host : match_host no_port ab_rule (asks request (97 ∷ []) (98 ∷ get_name)) ≡ false
unfolding match_host easegress.Prelude.Keys.lists_same
other_host = refl

nothing_found : Dict.get nothing_kept (cache_key (asks request (97 ∷ []) (98 ∷ get_name))) ≡ none
unfolding Dict.get
nothing_found = refl

not_found_shared_example :
    (search keep_all no_port ab
      (asks request (97 ∷ 98 ∷ []) get_name)
      (search keep_all no_port ab (asks request (97 ∷ []) (98 ∷ get_name)) (some nothing_kept)).1).0
    ≡ not_found
not_found_shared_example =
    not_found_shared keep_all no_port ab request (97 ∷ []) (98 ∷ []) get_name nothing_kept
      (other_host, tt) refl nothing_found

ab_without_cache : (search keep_all no_port ab request none).0 ≡ found plain_path
unfolding search init_path easegress.Prelude.Keys.lists_same
ab_without_cache = refl

header_without_cache : (search keep_all no_port both with_header none).0 ≡ found header_path
unfolding search init_path easegress.Prelude.Keys.lists_same Dict.get
header_without_cache = refl

-- After a request without the header the one with it gets the route of the other.
header_masked :
    (search keep_all no_port both with_header
      (search keep_all no_port both request (some nothing_kept)).1).0
    ≡ found plain_path
unfolding search init_path Dict.get easegress.Prelude.Keys.lists_same Dict.put
header_masked = refl
