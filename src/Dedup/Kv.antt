-- ===== src/Dedup/Kv.antt =====
-- `NatsKvDeduper` of libs/dedup/dedup.py, over a bucket that replicas share. The bucket and sha256
-- are parameters.
use pi_news_aggregator.Prelude.{Bool, true, false, Text}

-- kv.create: the value was created, the key was there (KeyWrongLastSequenceError), or another error.
pub data CreateResult : Type 0 where
  created exists failed : CreateResult

-- A bucket; the time passes between two calls in what `create` makes of it.
pub record Bucket : Type 1 where
  pub Kv : Type 0
  pub create : Text → Kv → CreateResult × Kv

module _ (b : Bucket) (hexdigest : Text → Text) where
  unfoldable pub safe_key : Text → Text
  safe_key key = hexdigest key

  -- An unexpected error is taken for a new key.
  abbrev pub answer : CreateResult → Bool
  answer created = false
  answer exists = true
  answer failed = false

  unfoldable pub seen : Text → b.Kv → Bool × b.Kv
  unfolding safe_key
  seen key kv = let (r, kv') = b.create (safe_key key) kv in (answer r, kv')
