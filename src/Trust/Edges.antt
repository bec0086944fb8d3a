-- ===== src/Trust/Edges.antt =====
-- libs/trust/edges.py: the provenance edges of a new item, and the key of its origin.
pub mod Detect
use pi_news_aggregator.Prelude.{
  ℕ, ◌≤◌, Bool, true, false, not, ◌&&◌, ◌||◌, Option, none, some, List, [], ◌∷◌, ◌++◌, Text, codes,
  nonempty, share, contains, ◌==◌, nat_eq, list_eq, leb, nat_beq, if◌then◌else◌,
}
use pi_news_aggregator.Dedup.Simhash.{hamming64}

abbrev pub copy_hamming_max : ℕ
copy_hamming_max = 6

pub data EdgeType : Type 0 where
  ref copy url author : EdgeType

abbrev pub wire_collapse_classes : List Text
wire_collapse_classes = codes "local_news" ∷ codes "mainstream" ∷ []

-- Ids are numbers. `urls` are canonical already.
pub record ProvNode : Type 0 where
  pub item_id : ℕ
  pub author_ref : Text
  pub parent_ref : Option Text
  pub content_hash : Text
  pub urls : List Text
  pub simhash : ℕ
  pub source : Text
  pub source_class : Text
  pub wire_ref : Text

pub record ProvEdge : Type 0 where
  pub src : ℕ
  pub dst : ℕ
  pub edge_type : EdgeType

unfoldable pub origin_key : ProvNode → Text
origin_key n =
    if nonempty n.wire_ref && contains n.source_class wire_collapse_classes
    then codes "wire:" ++ n.wire_ref
    else if nonempty n.author_ref
    then n.author_ref
    else if nonempty n.source_class && not (n.source_class == codes "social")
    then codes "src:" ++ n.source
    else []

-- `a.parent_ref and a.parent_ref == b.content_hash`
unfoldable pub refers : ProvNode → ProvNode → Bool
refers a b = elim a.parent_ref [ none ↦ false | some r ↦ nonempty r && (r == b.content_hash) ]

unfoldable pub copies : ProvNode → ProvNode → Bool
copies a b =
    not (a.simhash == 0)
    && (not (b.simhash == 0) && leb (hamming64 a.simhash b.simhash) copy_hamming_max)

-- The four `if`s of the loop's body: is there an edge of the type?
unfoldable pub depends : ProvNode → ProvNode → EdgeType → Bool
unfolding refers copies
depends new m ref = refers new m || refers m new
depends new m copy = copies new m
depends new m url = share new.urls m.urls
depends new m author = nonempty new.author_ref && (new.author_ref == m.author_ref)

edge_if : ProvNode → ProvNode → EdgeType → List ProvEdge
edge_if new m t =
    if depends new m t
    then record { src = new.item_id; dst = m.item_id; edge_type = t } ∷ []
    else []

member_edges : ProvNode → ProvNode → List ProvEdge
unfolding edge_if depends
member_edges new m =
    if m.item_id == new.item_id
    then []
    else edge_if new m ref ++ (edge_if new m copy ++ (edge_if new m url ++ edge_if new m author))

unfoldable pub detect_edges : ProvNode → List ProvNode → List ProvEdge
unfolding member_edges
detect_edges new [] = []
detect_edges new (m ∷ ms) = member_edges new m ++ detect_edges new ms
