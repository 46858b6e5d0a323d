-- ===== src/Mqtt/Session/Pending.antt =====
-- The messages of a session that wait for their acknowledgement.
use easegress.Prelude.{
  ℕ, ◌≡◌, refl, sym, ap, ◌∙◌, Bool, true, false, ◌||◌, none, some, inl, inr, List, [], ◌∷◌, ◌++◌,
  arith, ◌==◌, ==_iff, All, Bool-cases, Option-cases,
}
use mathlib.Core.Option.{some-injective}
use easegress.Prelude.Keys.{Bytes, list_key, nat_key}
use easegress.Prelude.Dict.{Dict, get, put, get-put, get-delete}
use easegress.Mqtt.Session.{Base64, Message, Session, puback, find_pending, new_msg, publish}

unfoldable pub has : List ℕ → ℕ → Bool
has [] id = false
has (x ∷ xs) id = x == id || has xs id

pub has-append : (xs ys : List ℕ) (id : ℕ) → has (xs ++ ys) id ≡ (has xs id || has ys id)
unfolding has
has-append [] ys id = refl
has-append (x ∷ xs) ys id = ground (arith, has-append xs ys id)

abbrev pub Idle : Dict ℕ Message → List ℕ → Type 0
Idle pending = All (λ id. get pending id ≡ none)

-- The search through the queue finds the first identifier that is pending.
pub find_pending_lem :
    (queue : List ℕ) (pending : Dict ℕ Message) (id : ℕ) (m : Message)
    → get pending id ≡ some m
    → has queue id ≡ true
    → (idx : ℕ) × (val : Message) × (before : List ℕ) × (rest : List ℕ) × (find_pending queue
          pending
        ≡ some (idx, val, idx ∷ rest))
      × (get pending idx ≡ some val)
      × (queue ≡ before ++ idx ∷ rest)
      × Idle pending before
unfolding find_pending has
find_pending_lem [] pending id m e h = cc
find_pending_lem (x ∷ queue) pending id m e h = elim (Option-cases (get pending x)) [
  | inr (val, e') ↦ (x, val, [], queue, rw (e', find_pending) refl, e', refl, tt)
  | inl idle ↦
      let later : has queue id ≡ true = ground (arith, ==_iff x id) in
      let (idx, val, before, rest, f, g, split, k) = find_pending_lem queue pending id m e later in
      (idx, val, x ∷ before, rest, rw (idle, find_pending) f, g, ap (λ q. x ∷ q) split, (idle, k))
]

module _ (base64 : Base64) where
  -- A pending message is in the queue, and is one of quality 1 whose text was made by the session.
  pub record IsQueued (s : Session) : Type 0 where
    pub queued : (id : ℕ) (m : Message) → get s.pending id ≡ some m → has s.pending_queue id ≡ true
    pub made :
        (id : ℕ) (m : Message)
        → get s.pending id ≡ some m
        → (payload : Bytes) × (topic : Bytes) × (m ≡ new_msg base64 topic payload 1)

  pub publish-IsQueued :
      (topic payload : Bytes) (qos : ℕ) (s : Session)
      → IsQueued s
      → IsQueued (publish base64 topic payload qos s).0
  unfolding publish has
  publish-IsQueued topic payload qos s h = elim (Bool-cases (qos == 1)) [
    | inr other ↦ rw (other, publish) (record { queued = h.queued; made = h.made })
    | inl one ↦
        let is_one : qos ≡ 1 = (==_iff qos 1).0 one in
        rw (one, publish)
          (record {
            queued = λ id m e. ground (
              arith,
              has-append s.pending_queue (s.next_id ∷ []) id,
              get-put s.pending s.next_id id (new_msg base64 topic payload qos),
              h.queued id m,
            );
            made = λ id m e. elim (Bool-cases (s.next_id == id)) [
              | inl here ↦ (
                payload,
                topic,
                (let f : get (put s.pending s.next_id (new_msg base64 topic payload qos)) id
                        ≡ some (new_msg base64 topic payload qos) =
                      get-put s.pending s.next_id id (new_msg base64 topic payload qos)
                      ∙ rw here refl in
                    some-injective m (new_msg base64 topic payload qos) (sym e ∙ f)
                    ∙ ap (λ q. new_msg base64 topic payload q) is_one),
              )
              | inr there ↦ h.made id m (
                  sym (
                    get-put s.pending s.next_id id (new_msg base64 topic payload qos)
                    ∙ rw there refl)
                  ∙ e)
            ];
          })
  ]

  pub puback-IsQueued : (id : ℕ) (s : Session) → IsQueued s → IsQueued (puback id s)
  unfolding puback
  puback-IsQueued id s h = record {
    queued = λ j m e. h.queued j m (ground (arith, get-delete s.pending id j));
    made = λ j m e. h.made j m (ground (arith, get-delete s.pending id j));
  }
