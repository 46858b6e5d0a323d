-- ===== src/Pipeline/Specs.antt =====
-- pkg/object/pipeline/pipeline.go: the specifications that `Validate` collects.
use text.Mathlib.TextEquality.{eq_iff}
use mathlib.Core.Option.{some-injective, none-ne-some}
use easegress.Prelude.{
  ◌≡◌, ◌≢◌, ◌⊎◌, inl, inr, refl, sym, ap, ◌∙◌, subst, none, some, List, [], ◌∷◌, map, if◌then◌else◌,
  String, Option-cases, All,
}
use easegress.Pipeline.{FilterSpec, end, lookup, collect_specs}
use easegress.Pipeline.Jumps.{OneOf, text_cases}

abbrev pub names : List FilterSpec → List String
names = map (λ spec. spec.name)

-- Adding an entry with a new name keeps what is found under the others.
pub lookup-cons :
    {A : Type 0} (name n : String) (a b : A) (entries : List (String × A))
    → lookup name entries ≡ none
    → lookup n entries ≡ some b
    → lookup n ((name, a) ∷ entries) ≡ some b
lookup-cons name n a b entries new h = elim (text_cases name n) [
  | inl (_, same) ↦ absurd (none-ne-some b (sym new ∙ ap (λ k. lookup k entries) same ∙ h))
  | inr (e, _) ↦ rw e h
]

pub lookup-head :
    {A : Type 0} (name : String) (a : A) (entries : List (String × A))
    → lookup name ((name, a) ∷ entries) ≡ some a
lookup-head name a entries = rw ((eq_iff name name).1 refl) refl

-- A collection succeeds only with a new name that is not the end's.
collect_step :
    (spec : FilterSpec) (rest : List FilterSpec) (found specs : List (String × FilterSpec))
    → collect_specs (spec ∷ rest) found ≡ some specs
    → (spec.name ≢ end)
      × (lookup spec.name found ≡ none)
      × (collect_specs rest ((spec.name, spec) ∷ found) ≡ some specs)
collect_step spec rest found specs h = elim (text_cases spec.name end) [
  | inl (e, _) ↦
      let refused : collect_specs (spec ∷ rest) found ≡ none = rw e refl in
      absurd (none-ne-some specs (sym refused ∙ h))
  | inr (e, other) ↦ elim (Option-cases (lookup spec.name found)) [
    | inl new ↦
        let later : collect_specs (spec ∷ rest) found
            ≡ collect_specs rest ((spec.name, spec) ∷ found) =
          rw (e, new) refl in
        (other, new, sym later ∙ h)
    | inr (twice, has) ↦
        let refused : collect_specs (spec ∷ rest) found ≡ none = rw (e, has) refl in
        absurd (none-ne-some specs (sym refused ∙ h))
  ]
]

collect-keeps :
    (rest : List FilterSpec) (found specs : List (String × FilterSpec))
    → collect_specs rest found ≡ some specs
    → (n : String) (s : FilterSpec) → lookup n found ≡ some s
    → lookup n specs ≡ some s
collect-keeps [] found specs h n s e =
    subst (λ m. lookup n m ≡ some s) (some-injective found specs h) e
collect-keeps (spec ∷ rest) found specs h n s e =
    let (_, new, later) = collect_step spec rest found specs h in
    collect-keeps rest ((spec.name, spec) ∷ found) specs later n s
      (lookup-cons spec.name n spec s found new e)

pub collect-All :
    (rest : List FilterSpec) (found specs : List (String × FilterSpec))
    → collect_specs rest found ≡ some specs
    → All (λ spec. (spec.name ≢ end) × (lookup spec.name specs ≡ some spec)) rest
collect-All [] found specs h = tt
collect-All (spec ∷ rest) found specs h =
    let (other, new, later) = collect_step spec rest found specs h in
    (
      (other, collect-keeps rest _ specs later spec.name spec (lookup-head spec.name spec found)),
      collect-All rest _ specs later,
    )

pub collect_only :
    (rest : List FilterSpec) (found specs : List (String × FilterSpec))
    → collect_specs rest found ≡ some specs
    → (n : String) (s : FilterSpec) → lookup n specs ≡ some s
    → (lookup n found ≡ some s) ⊎ OneOf n (names rest)
collect_only [] found specs h n s e =
    inl (subst (λ m. lookup n m ≡ some s) (sym (some-injective found specs h)) e)
collect_only (spec ∷ rest) found specs h n s e =
    let (other, new, later) = collect_step spec rest found specs h in
    elim (collect_only rest _ specs later n s e) [
      | inr among ↦ inr (inr among)
      | inl held ↦ elim (text_cases spec.name n) [
        | inl (_, same) ↦ inr (inl same)
        | inr (d, _) ↦ inl (subst (λ b. (if b then some spec else lookup n found) ≡ some s) d held)
      ]
    ]
