-- ===== src/Mqtt/Session/Reached.antt =====
-- What a session can come to, and what it then sends again.
use easegress.Prelude.{ℕ, ◌≡◌, subst, Bool, true, some, bind_some, List}
use mathlib.Core.Option.{none-ne-some, some-injective}
use easegress.Prelude.Keys.{Bytes, list_key, nat_key}
use easegress.Prelude.Dict.{get}
use easegress.Mqtt.Session.{
  Base64, Session, init_session, update_eg_name, put_topics, subscribe, unsubscribe, puback,
  publish, do_resend,
}
use easegress.Mqtt.Session.Resend.{do_resend-IsQueued}
use easegress.Mqtt.Session.Pending.{IsQueued, publish-IsQueued, puback-IsQueued}

module _ (base64 : Base64) where
  subscribe-IsQueued :
      (topics : List Bytes) (qoss : List ℕ) (s s' : Session)
      → IsQueued base64 s
      → subscribe topics qoss s ≡ some s'
      → IsQueued base64 s'
  unfolding subscribe
  subscribe-IsQueued topics qoss s s' h e =
      let (d, _, f) = bind_some (put_topics topics qoss s.info.topics) _ s' e in
      let info = record s.info { topics = d } in
      let s1 = record s { info = info; refresh_store = true } in
      subst (IsQueued base64) (some-injective s1 s' f) (record { queued = h.queued; made = h.made })

  -- What a session can come to from its start, by the calls of the broker and its own sends.
  pub data Reach : Session → Type 0 where
    starts :
        (eg_name name client_id : Bytes) (clean : Bool)
        → Reach (init_session eg_name name client_id clean)
    renamed : (s : Session) (eg_name name : Bytes) → Reach s → Reach (update_eg_name eg_name name s)
    subscribed :
        (s s' : Session) (topics : List Bytes) (qoss : List ℕ)
        → Reach s
        → subscribe topics qoss s ≡ some s'
        → Reach s'
    unsubscribed : (s : Session) (topics : List Bytes) → Reach s → Reach (unsubscribe topics s)
    published :
        (s : Session) (topic payload : Bytes) (qos : ℕ)
        → Reach s
        → Reach (publish base64 topic payload qos s).0
    acknowledged : (s : Session) (id : ℕ) → Reach s → Reach (puback id s)
    resent : (s : Session) (connected : Bool) → Reach s → Reach (do_resend base64 connected s).0

  pub Reach-IsQueued : (s : Session) → Reach s → IsQueued base64 s
  unfolding init_session update_eg_name unsubscribe get
  Reach-IsQueued _ (starts eg_name name client_id clean) = record {
    queued = λ j m e. absurd (none-ne-some m e);
    made = λ j m e. absurd (none-ne-some m e);
  }
  Reach-IsQueued _ (renamed s eg_name name r) =
      let h = Reach-IsQueued s r in record { queued = h.queued; made = h.made }
  Reach-IsQueued s' (subscribed s _ topics qoss r e) =
      subscribe-IsQueued topics qoss s s' (Reach-IsQueued s r) e
  Reach-IsQueued _ (unsubscribed s topics r) =
      let h = Reach-IsQueued s r in record { queued = h.queued; made = h.made }
  Reach-IsQueued _ (published s topic payload qos r) =
      publish-IsQueued base64 topic payload qos s (Reach-IsQueued s r)
  Reach-IsQueued _ (acknowledged s id r) = puback-IsQueued base64 id s (Reach-IsQueued s r)
  Reach-IsQueued _ (resent s connected r) =
      do_resend-IsQueued base64 s connected (Reach-IsQueued s r)
