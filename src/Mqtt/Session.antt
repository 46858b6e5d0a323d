-- ===== src/Mqtt/Session.antt =====
-- A client's session: pkg/object/mqttproxy/session.go. Each operation holds the session's lock, so it
-- is one function on the session. What is written to the client is a result. `encoding/base64` is read
-- through its two functions and their law.
use easegress.Prelude.{
  ℕ, ◌+◌, ◌%◌, ◌≡◌, Bool, true, false, Option, none, some, ◌>>=◌, List, [], ◌∷◌, ◌++◌, map, ◌==◌,
  if◌then◌else◌,
}
use easegress.Prelude.Keys.{Bytes, list_key, nat_key}
use easegress.Prelude.Dict
use easegress.Prelude.Dict.{Dict}
pub mod Pending
pub mod Resend
pub mod Reached
pub mod Drain
mod Examples

pub record Base64 : Type 0 where
  pub encode_to_string : Bytes → Bytes
  pub decode_string : Bytes → Option Bytes
  pub decode_encode : (payload : Bytes) → decode_string (encode_to_string payload) ≡ some payload

pub record SessionInfo : Type 0 where
  pub eg_name : Bytes
  pub name : Bytes
  pub topics : Dict Bytes ℕ
  pub client_id : Bytes
  pub clean_flag : Bool

pub record Message : Type 0 where
  pub topic : Bytes
  pub b64_payload : Bytes
  pub qos : ℕ

pub record Session : Type 0 where
  pub info : SessionInfo
  pub pending : Dict ℕ Message
  pub pending_queue : List ℕ
  pub next_id : ℕ  -- a uint16
  pub refresh_store : Bool

-- What the code sets of a PUBLISH packet.
pub record PublishPacket : Type 0 where
  pub qos : ℕ
  pub topic_name : Bytes
  pub payload : Bytes
  pub message_id : ℕ

-- `init`, for the names of the broker and what the connection packet says.
unfoldable pub init_session : Bytes → Bytes → Bytes → Bool → Session
init_session eg_name name client_id clean_session = record {
  info = record {
    eg_name = eg_name;
    name = name;
    topics = [];
    client_id = client_id;
    clean_flag = clean_session;
  };
  pending = [];
  pending_queue = [];
  next_id = 0;
  refresh_store = false;
}

unfoldable pub update_eg_name : Bytes → Bytes → Session → Session
update_eg_name eg_name name s =
    let info = record s.info { eg_name = eg_name; name = name } in
    record s { info = info; refresh_store = true }

-- The loop of `subscribe`; too few qualities are a panic.
unfoldable pub put_topics : List Bytes → List ℕ → Dict Bytes ℕ → Option (Dict Bytes ℕ)
put_topics [] qoss d = some d
put_topics (t ∷ ts) [] d = none
put_topics (t ∷ ts) (q ∷ qoss) d = put_topics ts qoss (Dict.put d t q)

unfoldable pub subscribe : List Bytes → List ℕ → Session → Option Session
unfolding put_topics
subscribe topics qoss s = put_topics topics qoss s.info.topics >>= λ d.
    let info = record s.info { topics = d } in some (record s { info = info; refresh_store = true })

unfoldable pub delete_topics : List Bytes → Dict Bytes ℕ → Dict Bytes ℕ
delete_topics [] d = d
delete_topics (t ∷ ts) d = delete_topics ts (Dict.delete d t)

unfoldable pub unsubscribe : List Bytes → Session → Session
unfolding delete_topics
unsubscribe topics s =
    let info = record s.info { topics = delete_topics topics s.info.topics } in
    record s { info = info; refresh_store = true }

-- The topics with their qualities of service, as bytes.
unfoldable pub all_subscribes : Session → List Bytes × List ℕ
all_subscribes s = (map (λ e. e.0) s.info.topics, map (λ e. e.1 % 256) s.info.topics)

unfoldable pub get_packet_from_msg : Bytes → Bytes → ℕ → Session → PublishPacket × Session
get_packet_from_msg topic payload qos s = (
  record { qos = qos; topic_name = topic; payload = payload; message_id = s.next_id },
  record s { next_id = (s.next_id + 1) % 65536 },
)

unfoldable pub puback : ℕ → Session → Session
puback message_id s = record s { pending = Dict.delete s.pending message_id }

-- The first identifier of the queue that is pending, with its message and the queue from it on.
unfoldable pub find_pending : List ℕ → Dict ℕ Message → Option (ℕ × Message × List ℕ)
find_pending [] pending = none
find_pending (idx ∷ queue) pending =
    let rest = find_pending queue pending in
    elim (Dict.get pending idx) [ some val ↦ some (idx, val, idx ∷ queue) | none ↦ rest ]

-- What is written to a client that is connected or not.
abbrev pub if_connected : Bool → Option PublishPacket → Option PublishPacket
if_connected true p = p
if_connected false p = none

module _ (base64 : Base64) where
  unfoldable pub new_msg : Bytes → Bytes → ℕ → Message
  new_msg topic payload qos = record {
    topic = topic;
    b64_payload = base64.encode_to_string payload;
    qos = qos;
  }

  -- `publish`, with the packet that is written, if one is.
  unfoldable pub publish : Bytes → Bytes → ℕ → Session → Session × Option PublishPacket
  unfolding get_packet_from_msg new_msg
  publish topic payload qos s =
      let (p, s1) = get_packet_from_msg topic payload qos s in
      let queued = record s1 {
        pending = Dict.put s1.pending p.message_id (new_msg topic payload qos);
        pending_queue = s1.pending_queue ++ p.message_id ∷ [];
      } in
      let s' = if qos == 1 then queued else s1 in (s', if qos == 2 then none else some p)

  -- The packet of a message that is sent again, `none` if its text is not of base64.
  unfoldable pub packet_of : ℕ → Message → Option PublishPacket
  packet_of message_id msg = base64.decode_string msg.b64_payload >>= λ payload. some (record {
    qos = msg.qos % 256;
    topic_name = msg.topic;
    payload = payload;
    message_id = message_id;
  })

  -- `doResend`, for a client that is connected or not.
  unfoldable pub do_resend : Bool → Session → Session × Option PublishPacket
  unfolding find_pending packet_of
  do_resend connected s = elim s.pending [
    | [] ↦ (record s { pending_queue = [] }, none)
    | e ∷ pending ↦ elim (find_pending s.pending_queue (e ∷ pending)) [
      | none ↦ (s, none)
      | some (idx, val, queue) ↦
          (record s { pending_queue = queue }, if_connected connected (packet_of idx val))
    ]
  ]
