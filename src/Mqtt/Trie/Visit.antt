-- ===== src/Mqtt/Trie/Visit.antt =====
-- What a visit of one child adds to a search: the body of the inner loop of `findSubscribers`.
use easegress.Prelude.{
  ℕ, ◌≡◌, ◌≢◌, ◌⊎◌, refl, sym, subst, false, some, List, [], ◌∷◌, ◌++◌, inl, inr, Bool-cases, clash,
}
use easegress.Prelude.Keys.{list_key, nat_key}
use easegress.Prelude.Dict.{get}
use easegress.Mqtt.Trie.{
  Level, ClientId, Clients, Node, same, same_level_iff, hash, plus, clients_of, Front, add_clients,
  visit,
}
use easegress.Mqtt.Trie.Subscriptions.{qos_of}
use easegress.Mqtt.Trie.Matching.{Matches, Subscribed, Among, added_sound, added_complete}

-- What a front still has to give: a client found, or one below its nodes.
abbrev pub Held : Front → List Level → ClientId → ℕ → Type 0
Held (next, out) ts id q = (get out id ≡ some q) ⊎ Among next ts id q

-- The subscriptions at and below a node that the level `l` leads to.
abbrev pub Head : Node → Level → List Level → ClientId → ℕ → Type 0
Head n l ts id q = (fs : List Level) × (qos_of n fs id ≡ some q) × Matches (l ∷ fs) ts

pub Among-append :
    (ns : List Node) (n : Node) (ts : List Level) (id : ClientId) (q : ℕ)
    → Among (ns ++ n ∷ []) ts id q
    → Among ns ts id q ⊎ Subscribed n ts id q
Among-append [] n ts id q (inl a) = inr a
Among-append [] n ts id q (inr a) = absurd a
Among-append (m ∷ ns) n ts id q (inl a) = inl (inl a)
Among-append (m ∷ ns) n ts id q (inr a) = elim (Among-append ns n ts id q a) [
  | inl b ↦ inl (inr b)
  | inr b ↦ inr b
]

pub append-Among :
    (ns : List Node) (n : Node) (ts : List Level) (id : ClientId) (q : ℕ)
    → Among ns ts id q ⊎ Subscribed n ts id q
    → Among (ns ++ n ∷ []) ts id q
append-Among [] n ts id q (inl a) = absurd a
append-Among [] n ts id q (inr a) = inl a
append-Among (m ∷ ns) n ts id q (inl (inl a)) = inl a
append-Among (m ∷ ns) n ts id q (inl (inr a)) = inr (append-Among ns n ts id q (inl a))
append-Among (m ∷ ns) n ts id q (inr a) = inr (append-Among ns n ts id q (inr a))

pub level_ne : (a b : Level) → same a b ≡ false → a ≢ b
level_ne a b h e = clash ((same_level_iff a b).1 e) h

-- The three things that a visit does.
pub visit_cases :
    (t l : Level) (n : Node) (next : List Node) (out : Clients)
    → ((l ≡ hash) × (visit t l n (next, out) ≡ (next, add_clients (clients_of n) out)))
      ⊎ ((l ≢ hash) × ((l ≡ plus) ⊎ (l ≡ t)) × (visit t l n (next, out) ≡ (next ++ n ∷ [], out)))
      ⊎ ((l ≢ hash) × (l ≢ plus) × (l ≢ t) × (visit t l n (next, out) ≡ (next, out)))
unfolding visit
visit_cases t l n next out = elim (Bool-cases (same l hash)) [
  | inl e ↦ inl ((same_level_iff l hash).0 e, rw e refl)
  | inr e ↦ elim (Bool-cases (same l plus)) [
    | inl p ↦ inr (inl (level_ne l hash e, inl ((same_level_iff l plus).0 p), rw (e, p) refl))
    | inr p ↦ elim (Bool-cases (same l t)) [
      | inl m ↦ inr (inl (level_ne l hash e, inr ((same_level_iff l t).0 m), rw (e, p, m) refl))
      | inr m ↦ inr (inr (level_ne l hash e, level_ne l plus p, level_ne l t m, rw (e, p, m) refl))
    ]
  ]
]

pub visit_sound :
    (t l : Level) (n : Node) (next : List Node) (out : Clients) (ts : List Level) (id : ClientId)
    (q : ℕ)
    → Held (visit t l n (next, out)) ts id q
    → Held (next, out) ts id q ⊎ Head n l (t ∷ ts) id q
visit_sound t l n next out ts id q h = elim (visit_cases t l n next out) [
  | inl (is_hash, e) ↦ elim (subst (λ s. Held s ts id q) e h) [
    | inl g ↦ elim (added_sound n out id q g) [
      | inl old ↦ inl (inl old)
      | inr own ↦ inr ([], own, inl (is_hash, refl))
    ]
    | inr a ↦ inl (inr a)
  ]
  | inr (inl (no_hash, fits, e)) ↦ elim (subst (λ s. Held s ts id q) e h) [
    | inl g ↦ inl (inl g)
    | inr a ↦ elim (Among-append next n ts id q a) [
      | inl b ↦ inl (inr b)
      | inr (fs, g, m) ↦ inr (fs, g, inr (no_hash, fits, m))
    ]
  ]
  | inr (inr (_, _, _, e)) ↦ inl (subst (λ s. Held s ts id q) e h)
]

pub visit_complete :
    (t l : Level) (n : Node) (next : List Node) (out : Clients) (ts : List Level) (id : ClientId)
    (q : ℕ)
    → Held (next, out) ts id q ⊎ Head n l (t ∷ ts) id q
    → (q' : ℕ) × Held (visit t l n (next, out)) ts id q'
visit_complete t l n next out ts id q h = elim (visit_cases t l n next out) [
  | inl (is_hash, e) ↦ subst (λ s. (q' : ℕ) × Held s ts id q') (sym e) (at_hash is_hash h)
  | inr (inl (no_hash, _, e)) ↦ (q, subst (λ s. Held s ts id q) (sym e) (at_match no_hash h))
  | inr (inr (no_hash, no_plus, differs, e)) ↦
      (q, subst (λ s. Held s ts id q) (sym e) (at_other no_hash no_plus differs h))
]
  where
    at_hash :
        l ≡ hash
        → Held (next, out) ts id q ⊎ Head n l (t ∷ ts) id q
        → (q' : ℕ) × Held (next, add_clients (clients_of n) out) ts id q'
    at_hash is_hash (inl (inr a)) = (q, inr a)
    at_hash is_hash (inl (inl g)) = let (q', e) = added_complete n out id q (inl g) in (q', inl e)
    at_hash is_hash (inr (fs, g, inl (_, whole))) =
        let (q', e) =
          added_complete n out id q (inr (subst (λ gs. qos_of n gs id ≡ some q) whole g)) in
        (q', inl e)
    at_hash is_hash (inr (fs, g, inr (no_hash, _, _))) = absurd (no_hash is_hash)

    at_match :
        l ≢ hash
        → Held (next, out) ts id q ⊎ Head n l (t ∷ ts) id q
        → Held (next ++ n ∷ [], out) ts id q
    at_match no_hash (inl (inl g)) = inl g
    at_match no_hash (inl (inr a)) = inr (append-Among next n ts id q (inl a))
    at_match no_hash (inr (fs, g, inl (is_hash, _))) = absurd (no_hash is_hash)
    at_match no_hash (inr (fs, g, inr (_, _, m))) =
        inr (append-Among next n ts id q (inr (fs, g, m)))

    at_other :
        l ≢ hash
        → l ≢ plus
        → l ≢ t
        → Held (next, out) ts id q ⊎ Head n l (t ∷ ts) id q
        → Held (next, out) ts id q
    at_other no_hash no_plus differs (inl h') = h'
    at_other no_hash no_plus differs (inr (fs, g, inl (is_hash, _))) = absurd (no_hash is_hash)
    at_other no_hash no_plus differs (inr (fs, g, inr (_, inl is_plus, _))) =
        absurd (no_plus is_plus)
    at_other no_hash no_plus differs (inr (fs, g, inr (_, inr equal, _))) = absurd (differs equal)
