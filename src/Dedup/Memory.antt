-- ===== src/Dedup/Memory.antt =====
-- `InMemoryDeduper` of libs/dedup/dedup.py: an OrderedDict of keys, oldest first.
pub mod Recall
use pi_news_aggregator.Prelude.{
  ℕ, Bool, true, false, List, [], ◌∷◌, ◌++◌, Text, contains, length, leb, if◌then◌else◌, list_eq,
  nat_eq,
}

-- while len(seen) > cap: seen.popitem(last=False)
unfoldable pub evict : ℕ → List Text → List Text
evict cap [] = []
evict cap (k ∷ ks) = let rest = evict cap ks in if leb (length (k ∷ ks)) cap then k ∷ ks else rest

unfoldable pub seen : ℕ → Text → List Text → Bool × List Text
unfolding evict
seen cap key store =
    if contains key store then (true, store) else (false, evict cap (store ++ key ∷ []))

-- The keys in turn.
unfoldable pub see_all : ℕ → List Text → List Text → List Text
unfolding seen
see_all cap [] store = store
see_all cap (k ∷ ks) store = see_all cap ks (seen cap k store).1
