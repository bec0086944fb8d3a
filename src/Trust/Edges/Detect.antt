-- ===== src/Trust/Edges/Detect.antt =====
-- Which edges `detect_edges` returns.
use pi_news_aggregator.Dedup.Simhash.{hamming64}
use pi_news_aggregator.Cluster.Choice.{share→Common, Common→share}
use pi_news_aggregator.Prelude.{
  list_eq, ◌≤◌, le→leb, Bool, false, not, some, Option-cases, Text, nonempty, and_true→both,
  ==_true, ==_refl, arith, ◌≡◌, ◌≢◌, refl, sym, ap, ◌∙◌, inl, inr, ◌↔◌, true, List, [], ◌∷◌, ◌++◌,
  In, here, there, In-append, In-append_left, In-append_right, In-one, ◌==◌, nat_eq, if◌then◌else◌,
  Bool-cases, ==_false, ==_false→ne, subst,
}
use pi_news_aggregator.Trust.Edges.{
  EdgeType, ref, copy, url, author, ProvNode, ProvEdge, refers, copies, depends, edge_if,
  member_edges, detect_edges,
}

-- The edge of type `t` from the new item to the member.
abbrev pub edge_to : ProvNode → ProvNode → EdgeType → ProvEdge
edge_to new m t = record { src = new.item_id; dst = m.item_id; edge_type = t }

edge_if-In :
    (new m : ProvNode) (t : EdgeType) (e : ProvEdge)
    → In e (edge_if new m t)
    → (e ≡ edge_to new m t) × (depends new m t ≡ true)
unfolding edge_if
edge_if-In new m t e k = elim (Bool-cases (depends new m t)) [
  | inl d ↦ (In-one (subst (λ b. In e (if b then edge_to new m t ∷ [] else [])) d k), d)
  | inr d ↦ elim (subst (λ b. In e (if b then edge_to new m t ∷ [] else [])) d k) [ ]
]

In-edge_if :
    (new m : ProvNode) (t : EdgeType)
    → depends new m t ≡ true
    → In (edge_to new m t) (edge_if new m t)
unfolding edge_if
In-edge_if new m t d = rw d (here refl)

-- An edge of the list of one member.
record Explained (new : ProvNode) (m : ProvNode) (e : ProvEdge) : Type 0 where
  other : m.item_id ≢ new.item_id
  edge : e ≡ edge_to new m e.edge_type
  reason : depends new m e.edge_type ≡ true

explain :
    (new m : ProvNode) (t : EdgeType) (e : ProvEdge)
    → m.item_id ≢ new.item_id
    → In e (edge_if new m t)
    → Explained new m e
explain new m t e n k =
    let (q, d) = edge_if-In new m t e k in
    let type_eq : t ≡ e.edge_type = sym (ap (λ (x : ProvEdge). x.edge_type) q) in
    record {
      other = n;
      edge = q ∙ ap (edge_to new m) type_eq;
      reason = subst (λ x. depends new m x ≡ true) type_eq d;
    }

member_edges-Explained :
    (new m : ProvNode) (e : ProvEdge) → In e (member_edges new m) → Explained new m e
unfolding member_edges
member_edges-Explained new m e k = elim (Bool-cases (m.item_id == new.item_id)) [
  | inl t ↦ elim (subst (λ b. In e (if b then [] else rest)) t k) [ ]
  | inr f ↦
      let n = ==_false→ne m.item_id new.item_id f in
      elim (In-append (edge_if new m ref) _ (subst (λ b. In e (if b then [] else rest)) f k)) [
        | inl a ↦ explain new m ref e n a
        | inr b ↦ elim (In-append (edge_if new m copy) _ b) [
          | inl a ↦ explain new m copy e n a
          | inr c ↦ elim (In-append (edge_if new m url) _ c) [
            | inl a ↦ explain new m url e n a
            | inr d ↦ explain new m author e n d
          ]
        ]
      ]
]
  where
    rest : List ProvEdge
    rest = edge_if new m ref ++ (edge_if new m copy ++ (edge_if new m url ++ edge_if new m author))

In-member_edges :
    (new m : ProvNode) (t : EdgeType)
    → m.item_id ≢ new.item_id
    → depends new m t ≡ true
    → In (edge_to new m t) (member_edges new m)
unfolding member_edges
In-member_edges new m ref n d =
    rw (==_false m.item_id new.item_id n) (In-append_left _ _ (In-edge_if new m ref d))
In-member_edges new m copy n d =
    rw (==_false m.item_id new.item_id n)
      (In-append_right (edge_if new m ref) _ (In-append_left _ _ (In-edge_if new m copy d)))
In-member_edges new m url n d = rw (==_false m.item_id new.item_id n) (
    In-append_right (edge_if new m ref) _
      (In-append_right (edge_if new m copy) _ (In-append_left _ _ (In-edge_if new m url d))))
In-member_edges new m author n d = rw (==_false m.item_id new.item_id n) (
    In-append_right (edge_if new m ref) _ (
      In-append_right (edge_if new m copy) _
        (In-append_right (edge_if new m url) _ (In-edge_if new m author d))))

-- What an edge of the type says of the two items.
pub data Dependency (new m : ProvNode) : EdgeType → Type 0 where
  answers :
      (r : Text)
      → new.parent_ref ≡ some r
      → nonempty r ≡ true
      → r ≡ m.content_hash
      → Dependency new m ref
  answered :
      (r : Text)
      → m.parent_ref ≡ some r
      → nonempty r ≡ true
      → r ≡ new.content_hash
      → Dependency new m ref
  near_copy :
      new.simhash ≢ 0 → m.simhash ≢ 0 → hamming64 new.simhash m.simhash ≤ 6 → Dependency new m copy
  same_url : (u : Text) → In u new.urls → In u m.urls → Dependency new m url
  same_author :
      nonempty new.author_ref ≡ true → new.author_ref ≡ m.author_ref → Dependency new m author

refers-some :
    (a b : ProvNode)
    → refers a b ≡ true
    → (r : Text) × (a.parent_ref ≡ some r) × (nonempty r ≡ true) × (r ≡ b.content_hash)
unfolding refers
refers-some a b h = elim (Option-cases a.parent_ref) [
  | inl q ↦ cc (rw q at h)
  | inr (r, q) ↦
      let (x, y) = and_true→both (nonempty r) (r == b.content_hash) (rw q at h) in
      (r, q, x, ==_true r b.content_hash y)
]

some-refers :
    (a b : ProvNode) (r : Text)
    → a.parent_ref ≡ some r
    → nonempty r ≡ true
    → r ≡ b.content_hash
    → refers a b ≡ true
unfolding refers
some-refers a b r q x y = rw (q, x) (subst (λ z. (r == z) ≡ true) y (==_refl r))

not-true : (b : Bool) → not b ≡ true → b ≡ false
not-true true h = cc h
not-true false h = refl

depends→Dependency : (new m : ProvNode) (t : EdgeType) → depends new m t ≡ true → Dependency new m t
unfolding depends copies
depends→Dependency new m ref h = elim (Bool-cases (refers new m)) [
  | inl t ↦ let (r, q, x, y) = refers-some new m t in answers r q x y
  | inr f ↦ let (r, q, x, y) = refers-some m new (rw f at h) in answered r q x y
]
depends→Dependency new m copy h =
    let (a, bc) = and_true→both (not (new.simhash == 0)) _ h in
    let (b, c) = and_true→both (not (m.simhash == 0)) _ bc in
    near_copy (==_false→ne new.simhash 0 (not-true _ a)) (==_false→ne m.simhash 0 (not-true _ b))
      (ground (arith, c))
depends→Dependency new m url h = let (u, a, b) = share→Common new.urls m.urls h in same_url u a b
depends→Dependency new m author h =
    let (a, b) = and_true→both (nonempty new.author_ref) (new.author_ref == m.author_ref) h in
    same_author a (==_true new.author_ref m.author_ref b)

Dependency→depends : (new m : ProvNode) (t : EdgeType) → Dependency new m t → depends new m t ≡ true
unfolding depends copies
Dependency→depends new m ref (answers r q x y) = rw (some-refers new m r q x y) refl
Dependency→depends new m ref (answered r q x y) = elim (Bool-cases (refers new m)) [
  | inl t ↦ rw t refl
  | inr f ↦ rw f (some-refers m new r q x y)
]
Dependency→depends new m copy (near_copy a b c) =
    rw (==_false new.simhash 0 a, ==_false m.simhash 0 b, le→leb _ _ c) refl
Dependency→depends new m url (same_url u a b) = Common→share u new.urls m.urls a b
Dependency→depends new m author (same_author a b) =
    rw a (subst (λ z. (new.author_ref == z) ≡ true) b (==_refl new.author_ref))

-- Some other member is the edge's target, and the pair has the dependency that its type names.
pub record Witnessed (new : ProvNode) (members : List ProvNode) (e : ProvEdge) : Type 0 where
  pub member : ProvNode
  pub listed : In member members
  pub other : member.item_id ≢ new.item_id
  pub edge : e ≡ edge_to new member e.edge_type
  pub reason : Dependency new member e.edge_type

pub Witnessed-there :
    {new m : ProvNode} {members : List ProvNode} {e : ProvEdge}
    → Witnessed new members e
    → Witnessed new (m ∷ members) e
Witnessed-there w = record {
  member = w.member;
  listed = there w.listed;
  other = w.other;
  edge = w.edge;
  reason = w.reason;
}

detect_edges-Witnessed :
    (new : ProvNode) (members : List ProvNode) (e : ProvEdge)
    → In e (detect_edges new members)
    → Witnessed new members e
unfolding detect_edges
detect_edges-Witnessed new [] e k = elim k [ ]
detect_edges-Witnessed new (m ∷ ms) e k = elim (In-append (member_edges new m) _ k) [
  | inl a ↦
      let x = member_edges-Explained new m e a in
      record {
        member = m;
        listed = here refl;
        other = x.other;
        edge = x.edge;
        reason = depends→Dependency new m e.edge_type x.reason;
      }
  | inr b ↦ Witnessed-there (detect_edges-Witnessed new ms e b)
]

In-detect_edges :
    (new m : ProvNode) (t : EdgeType) (members : List ProvNode)
    → In m members
    → m.item_id ≢ new.item_id
    → depends new m t ≡ true
    → In (edge_to new m t) (detect_edges new members)
unfolding detect_edges
In-detect_edges new m t [] k n d = elim k [ ]
In-detect_edges new m t (x ∷ xs) (here q) n d =
    In-append_left _ _
      (subst (λ y. In (edge_to new m t) (member_edges new y)) q (In-member_edges new m t n d))
In-detect_edges new m t (x ∷ xs) (there k) n d =
    In-append_right (member_edges new x) _ (In-detect_edges new m t xs k n d)

-- An edge is returned exactly when it leads from the new item to a member with another id that
-- has the dependency of the edge's type with it: a parent reference of either that is the content
-- hash of the other, two simhashes other than 0 at most 6 bits apart, a shared url, or the same
-- author, named by both.
pub detect_edges_iff :
    (new : ProvNode) (members : List ProvNode) (e : ProvEdge)
    → In e (detect_edges new members) ↔ Witnessed new members e
detect_edges_iff new members e = (
  detect_edges-Witnessed new members e,
  λ w.
      subst (λ x. In x (detect_edges new members)) (sym w.edge)
        (In-detect_edges new w.member e.edge_type members w.listed w.other
          (Dependency→depends new w.member e.edge_type w.reason)),
)
