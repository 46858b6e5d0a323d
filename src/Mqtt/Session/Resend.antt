-- ===== src/Mqtt/Session/Resend.antt =====
-- What a session sends again: the message that waits longest in the queue.
use easegress.Prelude.{
  ℕ, ◌≡◌, ◌⊎◌, refl, sym, ap, subst, ◌∙◌, Bool, true, Option, none, some, inl, inr, List, [], ◌∷◌,
  ◌++◌, arith, ◌==◌, ==_iff, Bool-cases,
}
use mathlib.Core.Option.{none-ne-some}
use easegress.Prelude.Keys.{Bytes, list_key, nat_key}
use easegress.Prelude.Dict.{Dict, get}
use easegress.Mqtt.Session.{
  Base64, Message, Session, PublishPacket, find_pending, new_msg, packet_of, if_connected,
  do_resend,
}
use easegress.Mqtt.Session.Pending.{has, Idle, find_pending_lem, IsQueued}

pub List-cases : {A : Type 0} (l : List A) → (l ≡ []) ⊎ ((x : A) × (xs : List A) × (l ≡ x ∷ xs))
List-cases [] = inl refl
List-cases (x ∷ xs) = inr (x, xs, refl)

nothing : (pending : Dict ℕ Message) (id : ℕ) → pending ≡ [] → get pending id ≡ none
unfolding get
nothing pending id e = rw e refl

-- A pending identifier of the queue is behind those that are not pending.
has_behind :
    (before queue : List ℕ) (pending : Dict ℕ Message) (id : ℕ) (m : Message)
    → Idle pending before
    → get pending id ≡ some m
    → has (before ++ queue) id ≡ true
    → has queue id ≡ true
unfolding has
has_behind [] queue pending id m idle e h = h
has_behind (x ∷ before) queue pending id m (idle, rest) e h =
    has_behind before queue pending id m rest e (elim (Bool-cases (x == id)) [
      | inl same ↦
          let f : get pending id ≡ none = ap (get pending) (sym ((==_iff x id).0 same)) ∙ idle in
          absurd (none-ne-some m (sym f ∙ e))
      | inr other ↦ ground (arith, other)
    ])

-- An entry is found under some identifier.
pub get_first : (e : ℕ × Message) (d : Dict ℕ Message) → get (e ∷ d) e.0 ≡ some e.1
unfolding get
get_first (id, m) d = ground arith

module _ (base64 : Base64) where
  packet_of_lem :
      (id : ℕ) (topic payload : Bytes)
      → packet_of base64 id (new_msg base64 topic payload 1)
        ≡ some (record { qos = 1; topic_name = topic; payload = payload; message_id = id })
  unfolding packet_of new_msg
  packet_of_lem id topic payload = rw (base64.decode_encode payload) refl

  -- The next send of a session whose pending messages are queued, and what it leaves: nothing waits, or
  -- the queue is cut down to the first identifier that is pending, whose message is sent as it was
  -- published.
  unfoldable pub Resends : Session → Bool → Type 0
  Resends s connected =
      ((s.pending ≡ []) × (do_resend base64 connected s ≡ (record s { pending_queue = [] }, none)))
      ⊎ ((id : ℕ) × (topic : Bytes) × (payload : Bytes) × (before : List ℕ) × (rest : List ℕ)
          × (s.pending_queue ≡ before ++ id ∷ rest)
          × Idle s.pending before
          × (get s.pending id ≡ some (new_msg base64 topic payload 1))
          × (do_resend base64 connected s ≡ (
            record s { pending_queue = id ∷ rest },
            if_connected connected
                (some (record { qos = 1; topic_name = topic; payload = payload; message_id = id })),
          )))

  do_resend_idle :
      (s : Session) (connected : Bool)
      → s.pending ≡ []
      → do_resend base64 connected s ≡ (record s { pending_queue = [] }, none)
  unfolding do_resend
  do_resend_idle s connected e = rw e refl

  do_resend_found :
      (s : Session) (connected : Bool) (e : ℕ × Message) (d : Dict ℕ Message) (id : ℕ)
      (rest : List ℕ) (topic payload : Bytes)
      → s.pending ≡ e ∷ d
      → find_pending s.pending_queue (e ∷ d) ≡ some (id, new_msg base64 topic payload 1, id ∷ rest)
      → do_resend base64 connected s ≡ (
        record s { pending_queue = id ∷ rest },
        if_connected connected
            (some (record { qos = 1; topic_name = topic; payload = payload; message_id = id })),
      )
  unfolding do_resend
  do_resend_found s connected e d id rest topic payload f g =
      rw f (rw (g, do_resend) (rw (packet_of_lem id topic payload) refl))

  pub do_resend_lem : (s : Session) (connected : Bool) → IsQueued base64 s → Resends s connected
  unfolding Resends
  do_resend_lem s connected h = elim (List-cases s.pending) [
    | inl e ↦ inl (e, do_resend_idle s connected e)
    | inr (e, d, f) ↦
        let first : get s.pending e.0 ≡ some e.1 = ap (λ p. get p e.0) f ∙ get_first e d in
        let (id, val, before, rest, found, g, split, idle) =
          find_pending_lem s.pending_queue s.pending e.0 e.1 first (h.queued e.0 e.1 first) in
        let (payload, topic, made) = h.made id val g in
        let found' = ap (λ p. find_pending s.pending_queue p) (sym f) ∙ found in
        inr (
          id,
          topic,
          payload,
          before,
          rest,
          split,
          idle,
          g ∙ ap (λ m. some m) made,
          do_resend_found s connected e d id rest topic payload f
              (found' ∙ ap (λ m. some (id, m, id ∷ rest)) made),
        )
  ]

  pub do_resend-IsQueued :
      (s : Session) (connected : Bool)
      → IsQueued base64 s
      → IsQueued base64 (do_resend base64 connected s).0
  unfolding Resends has
  do_resend-IsQueued s connected h = elim (do_resend_lem s connected h) [
    | inl (e, f) ↦
        subst (λ (r : Session × Option PublishPacket). IsQueued base64 r.0) (sym f)
          (record {
            queued = λ j m g. absurd (none-ne-some m (sym (nothing s.pending j e) ∙ g));
            made = h.made;
          })
    | inr (id, topic, payload, before, rest, split, idle, g, f) ↦
        subst (λ (r : Session × Option PublishPacket). IsQueued base64 r.0) (sym f)
          (record {
            queued = λ j m e.
                has_behind before (id ∷ rest) s.pending j m idle e
                  (sym (ap (λ q. has q j) split) ∙ h.queued j m e);
            made = h.made;
          })
  ]
