-- ===== src/Trust/Origins/Linking.antt =====
-- What the loop over the edges joins.
use pi_news_aggregator.Prelude.{
  In, here, there, In-split, ℕ, ◌≡◌, refl, sym, inl, inr, Option, some, List, [], ◌∷◌, nat_eq,
  contains, contains→In, In→contains, and_true→both, false, ◌&&◌, Bool-cases, ◌>>=◌, subst,
}
use pi_news_aggregator.Trust.UnionFind.{Parents}
use pi_news_aggregator.Trust.UnionFind.Merge.{merge}
use pi_news_aggregator.Trust.UnionFind.Partition.{
  base, Partition, Coarser, union-Partition, merge-Coarser, merge_joins,
}
use pi_news_aggregator.Trust.Edges.{ProvEdge}
use pi_news_aggregator.Trust.Origins.{link_edges}

-- Both ends of the edge are in the story.
abbrev pub Inside : List ℕ → ProvEdge → Type 0
Inside known e = In e.src known × In e.dst known

pub record EdgesJoined (R : ℕ → ℕ → Type 0) (ids known : List ℕ) (es : List ProvEdge) (rep : ℕ → ℕ)
    (r : Option Parents) : Type 0 where
  pub after : Parents
  pub rep' : ℕ → ℕ
  pub returned : r ≡ some after
  pub partition : Partition R ids after rep'
  pub coarser : Coarser rep rep'
  pub joined : (e : ProvEdge) → In e es → Inside known e → rep' e.src ≡ rep' e.dst

pub link_edges-EdgesJoined :
    (R : ℕ → ℕ → Type 0) (ids known : List ℕ) (es : List ProvEdge) (p : Parents) (rep : ℕ → ℕ)
    → Partition R ids p rep
    → ((x : ℕ) → In x known → In x ids)
    → ((e : ProvEdge) → In e es → Inside known e → R e.src e.dst)
    → EdgesJoined R ids known es rep (link_edges known es p)
unfolding link_edges
link_edges-EdgesJoined R ids known [] p rep inv sub related = record {
  after = p;
  rep' = rep;
  returned = refl;
  partition = inv;
  coarser = λ x y h. h;
  joined = λ e m. elim m [ ];
}
link_edges-EdgesJoined R ids known (e ∷ es) p rep inv sub related =
    elim (Bool-cases (contains e.src known && contains e.dst known)) [
      | inl t ↦
          let (s, d) = and_true→both (contains e.src known) (contains e.dst known) t in
          let ms = contains→In e.src known s in
          let md = contains→In e.dst known d in
          let (p', run, inv') =
            union-Partition inv e.src e.dst (sub e.src ms) (sub e.dst md)
              (base (related e (here refl) (ms, md))) in
          let ih =
            link_edges-EdgesJoined R ids known es p' (merge rep e.src e.dst) inv' sub
              (λ f m. related f (there m)) in
          record {
            after = ih.after;
            rep' = ih.rep';
            returned = rw t (rw (run, ◌>>=◌) ih.returned);
            partition = ih.partition;
            coarser = λ x y h. ih.coarser x y (merge-Coarser rep e.src e.dst x y h);
            joined = λ f m inside. elim (In-split m) [
              | inl q ↦
                  subst (λ (g : ProvEdge). ih.rep' g.src ≡ ih.rep' g.dst) (sym q)
                    (ih.coarser e.src e.dst (merge_joins rep e.src e.dst))
              | inr k ↦ ih.joined f k inside
            ];
          }
      | inr t ↦
          let ih =
            link_edges-EdgesJoined R ids known es p rep inv sub (λ f m. related f (there m)) in
          record {
            after = ih.after;
            rep' = ih.rep';
            returned = rw t ih.returned;
            partition = ih.partition;
            coarser = ih.coarser;
            joined = λ f m inside. elim (In-split m) [
              | inl q ↦ absurd (outside (subst (Inside known) q inside) t)
              | inr k ↦ ih.joined f k inside
            ];
          }
    ]
  where
    outside : Inside known e → (contains e.src known && contains e.dst known) ≡ false → ⊥
    outside (ms, md) t = cc (t, In→contains e.src known ms, In→contains e.dst known md)
