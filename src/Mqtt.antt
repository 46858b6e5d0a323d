-- ===== src/Mqtt.antt =====
-- The MQTT proxy: pkg/object/mqttproxy.
pub mod Trie
pub mod Topics
pub mod LevelCache
pub mod NoCache
pub mod TopicMatch
pub mod CachedTopics
pub mod Session
mod Examples
