-- ===== src/LoadBalance/Turns.antt =====
-- pkg/filters/proxies/loadbalance.go: a row of choices by round robin.
use mathlib.Core.List.{append_assoc}
use native.Mathlib.Nat.{mod-lt, mod-eq_of_lt, mod-add-mod}
use easegress.Prelude.{
  ℕ, zero, suc, ◌+◌, ◌%◌, ◌^◌, ◌≤◌, ◌<◌, ◌≡◌, refl, sym, ap, ◌∙◌, Option, some, ◌>>=◌, List, [],
  ◌∷◌, ◌++◌, arith, length, get_elem?, length-append, length-take, length-drop, take, drop, rotate,
  get_elem?-rotate,
}
use easegress.LoadBalance.{Server, ServerGroup, new_server_group, index_of, choose_round_robin}

-- The servers of `n` choices, one after the other.
unfoldable pub serve : ℕ → ℕ → ServerGroup → Option (List Server)
unfolding choose_round_robin
serve zero counter sg = some []
serve (suc n) counter sg = do
  (counter', server) ← choose_round_robin counter sg
  servers ← serve n counter' sg
  some (server ∷ servers)

get_elem?-middle :
    (zs ys : List Server) (y : Server) → get_elem? (zs ++ (y ∷ ys)) (length zs) ≡ some y
get_elem?-middle [] ys y = refl
get_elem?-middle (z ∷ zs) ys y = get_elem?-middle zs ys y

index_of_lem : (counter n : ℕ) → 0 < n → counter < 2 ^ 63 → index_of counter n ≡ some (counter % n)
index_of_lem counter n some_server small = ground arith

choose_lem :
    (counter : ℕ) (xs : List Server) (y : Server)
    → 0 < length xs
    → counter < 2 ^ 63
    → get_elem? xs (counter % length xs) ≡ some y
    → choose_round_robin counter (new_server_group xs) ≡ some (counter + 1, y)
unfolding choose_round_robin
choose_lem counter xs y full small at =
    rw (index_of_lem counter (length xs) full small, at)
      (ap (λ c. some (c, y)) (mod-eq_of_lt {n = counter + 1} {m = 2 ^ 64} (omega arith)))

length-rotate : (i : ℕ) (xs : List Server) → i ≤ length xs → length (rotate i xs) ≡ length xs
length-rotate i xs le =
    omega (arith, length-append (drop i xs) (take i xs), length-drop i xs, length-take i xs)

-- The servers that are left of a turn, `ys`, are what the next choices give.
serve-rest :
    (xs zs ys : List Server) (counter : ℕ)
    → 0 < length xs
    → counter + length xs ≤ 2 ^ 63
    → rotate (counter % length xs) xs ≡ zs ++ ys
    → serve (length ys) (counter + length zs) (new_server_group xs) ≡ some ys
unfolding serve
serve-rest xs zs [] counter full small split = refl
serve-rest xs zs (y ∷ ys) counter full small split =
    let n = length xs in
    let start : counter % n < n = mod-lt counter full in
    let here : length zs < n = omega (
      arith,
      length-append zs (y ∷ ys),
      ap length split,
      length-rotate (counter % n) xs (omega arith),
    ) in
    let at : get_elem? xs ((counter + length zs) % n) ≡ some y =
      ap (get_elem? xs) (sym (mod-add-mod counter n (length zs)))
      ∙ sym (get_elem?-rotate (counter % n) (length zs) xs start here)
      ∙ ap (λ l. get_elem? l (length zs)) split
      ∙ get_elem?-middle zs ys y in
    let moved : length (zs ++ (y ∷ [])) ≡ length zs + 1 =
      omega (arith, length-append zs (y ∷ [])) in
    let later =
      serve-rest xs (zs ++ (y ∷ [])) ys counter full small
        (split ∙ sym (append_assoc zs (y ∷ []) ys)) in
    rw (choose_lem (counter + length zs) xs y full (omega arith) at) (
      ap (λ o. o >>= λ servers. some (y ∷ servers))
        (ap (λ k. serve (length ys) k (new_server_group xs)) {x = counter + length zs + 1}
            {y = counter + length (zs ++ (y ∷ []))} (omega arith)
          ∙ later))

-- For a group with a server, and a counter that stays below 2^63: as many choices by round robin as
-- there are servers, one after the other, do not panic and give every place of the group once, in
-- the group's order from the counter's remainder on and round its end.
pub serve-rotate :
    (xs : List Server) (counter : ℕ)
    → 0 < length xs
    → counter + length xs ≤ 2 ^ 63
    → serve (length xs) counter (new_server_group xs) ≡ some (rotate (counter % length xs) xs)
serve-rotate xs counter full small =
    let start : counter % length xs < length xs = mod-lt counter full in
    ap (λ k. serve k counter (new_server_group xs))
      (sym (length-rotate (counter % length xs) xs (omega arith)))
    ∙ ap (λ k. serve (length (rotate (counter % length xs) xs)) k (new_server_group xs))
        {x = counter} {y = counter + 0} (omega arith)
    ∙ serve-rest xs [] (rotate (counter % length xs) xs) counter full small refl
