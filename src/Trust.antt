-- ===== src/Trust.antt =====
-- libs/trust: provenance edges, independent origins, wire credits and trust states; and the primary
-- match of services/trust.
pub mod UnionFind
pub mod Edges
pub mod Urls
pub mod Origins
pub mod States
pub mod Wire
pub mod Match
pub mod Matcher
