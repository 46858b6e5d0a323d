-- ===== src/Mqtt/Session/Examples.antt =====
-- The theorems on sessions at concrete inputs.
use easegress.Prelude.{ℕ, ◌≡◌, refl, true, some, List, [], ◌∷◌, arith, ◌≤◌, length}
use easegress.Mqtt.Session.{Base64, Session, init_session, publish, puback, do_resend}
use easegress.Mqtt.Session.Reached.{Reach, starts, published}
use easegress.Mqtt.Session.Drain.{rounds, rounds-drain}

abbrev plain : Base64
plain = record {
  encode_to_string = λ payload. payload;
  decode_string = λ text. some text;
  decode_encode = λ payload. refl;
}

abbrev start : Session
start = init_session (1 ∷ []) (2 ∷ []) (3 ∷ []) true

abbrev one_sent : Session
one_sent = (publish plain (97 ∷ []) (7 ∷ []) 1 start).0

abbrev two_sent : Session
two_sent = (publish plain (98 ∷ []) (8 ∷ []) 1 one_sent).0

-- The first of the two is acknowledged.
abbrev waits : Session
waits = puback 0 two_sent

start-Reach : Reach plain start
start-Reach = starts (1 ∷ []) (2 ∷ []) (3 ∷ []) true

two_sent-Reach : Reach plain two_sent
two_sent-Reach =
    published one_sent (98 ∷ []) (8 ∷ []) 1 (published start (97 ∷ []) (7 ∷ []) 1 start-Reach)

second_again :
    (do_resend plain true waits).1
    ≡ some (record { qos = 1; topic_name = 98 ∷ []; payload = 8 ∷ []; message_id = 1 })
unfolding do_resend publish puback init_session easegress.Prelude.Dict.delete
    easegress.Prelude.Dict.put easegress.Prelude.Dict.get
second_again = refl

two_long : length two_sent.pending_queue ≤ 2
unfolding publish init_session
two_long = ground arith

rounds-drain_example : (rounds plain 2 two_sent).pending ≡ []
rounds-drain_example = rounds-drain plain two_sent 2 two_sent-Reach two_long
