-- ===== src/Dedup.antt =====
-- libs/dedup: the simhash fingerprint and the dedup stores.
pub mod Simhash
pub mod Memory
pub mod Kv
use pi_news_aggregator.Prelude.{Bool, Text}

-- The Protocol `Deduper`: `seen` says whether the key was there, and records it.
pub record Deduper : Type 1 where
  pub Store : Type 0
  pub seen : Text → Store → Bool × Store
