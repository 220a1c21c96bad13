-- ===== src/Kv.antt =====
-- The KV half of a branch (agentfork/kv).
pub mod Radix
pub mod Cache
