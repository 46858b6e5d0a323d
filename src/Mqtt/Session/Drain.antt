-- ===== src/Mqtt/Session/Drain.antt =====
-- Sends and acknowledgements by turns leave no message waiting.
use easegress.Prelude.{
  ℕ, zero, suc, ◌+◌, ◌≤◌, length, ◌≡◌, refl, ap, subst, ◌∙◌, true, Option, none, some, inl, inr,
  List, [], ◌∷◌, ◌++◌, arith, ◌==◌, ==_iff, Bool-cases,
}
use easegress.Prelude.Keys.{list_key, nat_key}
use easegress.Prelude.Dict.{Dict, get, delete, get-delete}
use easegress.Mqtt.Session.{Base64, Message, Session, PublishPacket, puback, do_resend}
use easegress.Mqtt.Session.Resend.{
  Resends, do_resend_lem, do_resend-IsQueued, List-cases, get_first,
}
use easegress.Mqtt.Session.Reached.{Reach, Reach-IsQueued}
use easegress.Mqtt.Session.Pending.{has, Idle, IsQueued, puback-IsQueued}

abbrev one_if_some : Option Message → ℕ
one_if_some none = 0
one_if_some (some m) = 1

-- How many of the identifiers are pending.
unfoldable waiting : List ℕ → Dict ℕ Message → ℕ
waiting [] pending = 0
waiting (x ∷ xs) pending = one_if_some (get pending x) + waiting xs pending

waiting-length : (queue : List ℕ) (pending : Dict ℕ Message) → waiting queue pending ≤ length queue
unfolding waiting
waiting-length [] pending = omega arith
waiting-length (x ∷ xs) pending = ground (arith, waiting-length xs pending)

waiting-delete :
    (queue : List ℕ) (pending : Dict ℕ Message) (id : ℕ)
    → waiting queue (delete pending id) ≤ waiting queue pending
unfolding waiting
waiting-delete [] pending id = omega arith
waiting-delete (x ∷ xs) pending id =
    ground (arith, waiting-delete xs pending id, get-delete pending id x)

waiting-append :
    (before queue : List ℕ) (pending : Dict ℕ Message)
    → Idle pending before
    → waiting (before ++ queue) pending ≡ waiting queue pending
unfolding waiting
waiting-append [] queue pending idle = refl
waiting-append (x ∷ xs) queue pending (idle, rest) =
    rw idle (let e = waiting-append xs queue pending rest in omega arith)

has-waiting :
    (queue : List ℕ) (pending : Dict ℕ Message) (id : ℕ) (m : Message)
    → has queue id ≡ true
    → get pending id ≡ some m
    → 1 ≤ waiting queue pending
unfolding waiting has
has-waiting [] pending id m h e = cc
has-waiting (x ∷ xs) pending id m h e = elim (Bool-cases (x == id)) [
  | inl same ↦
      let f : get pending x ≡ some m = ap (get pending) ((==_iff x id).0 same) ∙ e in
      rw f (omega arith)
  | inr other ↦
      let later : has xs id ≡ true = ground (arith, other) in
      let one = has-waiting xs pending id m later e in omega arith
]

module _ (base64 : Base64) where
  -- The connected client acknowledges what is sent again.
  abbrev pub acknowledge : Session × Option PublishPacket → Session
  acknowledge (s, none) = s
  acknowledge (s, some p) = puback p.message_id s

  unfoldable pub rounds : ℕ → Session → Session
  rounds zero s = s
  rounds (suc n) s = rounds n (acknowledge (do_resend base64 true s))

  -- A round leaves one message less that waits.
  round_fewer :
      (s : Session) (n : ℕ)
      → IsQueued base64 s
      → waiting s.pending_queue s.pending ≤ suc n
      → (s' : Session) × (acknowledge (do_resend base64 true s) ≡ s')
        × IsQueued base64 s'
        × (waiting s'.pending_queue s'.pending ≤ n)
  unfolding Resends waiting puback
  round_fewer s n h k = elim (do_resend_lem base64 s true h) [
    | inl (e, f) ↦ (
      record s { pending_queue = [] },
      rw f refl,
      subst (λ (r : Session × Option PublishPacket). IsQueued base64 r.0) f
          (do_resend-IsQueued base64 s true h),
      omega arith,
    )
    | inr (id, topic, payload, before, rest, split, idle, g, f) ↦
        let s1 = record s { pending_queue = id ∷ rest } in
        (
          puback id s1,
          rw f refl,
          puback-IsQueued base64 id s1 (
              subst (λ (r : Session × Option PublishPacket). IsQueued base64 r.0) f
                (do_resend-IsQueued base64 s true h)),
          let gone : get (delete s.pending id) id ≡ none =
                get-delete s.pending id id ∙ (rw (==_iff id id).1 refl) in
              let here = ap (λ q. waiting q s.pending) split in
              let behind = waiting-append before (id ∷ rest) s.pending idle in
              let head : waiting (id ∷ rest) s.pending ≡ 1 + waiting rest s.pending = rw g refl in
              let less = waiting-delete rest s.pending id in rw gone (omega arith),
        )
  ]

  rounds_lem :
      (n : ℕ) (s : Session)
      → IsQueued base64 s
      → waiting s.pending_queue s.pending ≤ n
      → (rounds n s).pending ≡ []
  unfolding rounds
  rounds_lem zero s h k = elim (List-cases s.pending) [
    | inl e ↦ e
    | inr (e, d, f) ↦
        let first : get s.pending e.0 ≡ some e.1 = ap (λ p. get p e.0) f ∙ get_first e d in
        let one = has-waiting s.pending_queue s.pending e.0 e.1 (h.queued e.0 e.1 first) first in
        absurd (omega arith)
  ]
  rounds_lem (suc n) s h k =
      let (s', e, h', k') = round_fewer s n h k in
      ap (λ t. (rounds n t).pending) e ∙ rounds_lem n s' h' k'

  -- As many rounds as the queue is long, in each of which doResend finds the client connected and the
  -- client acknowledges what is sent, leave no message waiting.
  pub rounds-drain :
      (s : Session) (n : ℕ)
      → Reach base64 s
      → length s.pending_queue ≤ n
      → (rounds n s).pending ≡ []
  rounds-drain s n r k =
      let fits = waiting-length s.pending_queue s.pending in
      rounds_lem n s (Reach-IsQueued base64 s r) (omega arith)
