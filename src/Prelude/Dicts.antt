-- ===== src/Prelude/Dicts.antt =====
-- A Python `dict` as an association list in insertion order: a write to a key that is there
-- replaces its value in place, any other write appends.
use mathlib.Core.Path.{◌≡◌, refl, ap, sym, ◌∙◌, subst}
use mathlib.Core.Logic.{◌≢◌, inl, inr}
use Prim.Native.Nat.{suc}
use mathlib.Core.Option.{Option, none, some}
use native.Mathlib.Omega.{arith}
use mathlib.Core.List.{List, [], ◌∷◌, ◌++◌}
use native.Mathlib.Omega.{arith}
use package.pi_news_aggregator.Prelude.Tests.{
  Eq, ◌==◌, if◌then◌else◌, ==_true, ==_refl, ==_false, ==_false→ne, Bool-cases,
}
use package.pi_news_aggregator.Prelude.Lists.{In, here, there, In-tail, Distinct, length}

abbrev pub Dict {ℓ κ} : Type ℓ → Type κ → Type (ℓ ⊔ κ)
Dict K V = List (K × V)

module _ {ℓ κ} {K : Type ℓ} {V : Type κ} where
  abbrev pub keys : Dict K V → List K
  keys [] = []
  keys ((k, v) ∷ d) = k ∷ keys d

  -- d.values()
  abbrev pub values : Dict K V → List V
  values [] = []
  values ((k, v) ∷ d) = v ∷ values d

  pub length-values : (d : Dict K V) → length (values d) ≡ length (keys d)
  length-values [] = refl
  length-values ((k, v) ∷ d) = ap suc (length-values d)

module _ {ℓ κ} {K : Type ℓ} {V : Type κ} ⦃e : Eq K⦄ where
  -- d.get(k)
  unfoldable pub get : K → Dict K V → Option V
  get k [] = none
  get k ((j, v) ∷ d) = if k == j then some v else get k d

  -- d[k] = v
  unfoldable pub put : K → V → Dict K V → Dict K V
  put k v [] = (k, v) ∷ []
  put k v ((j, w) ∷ d) = if k == j then (j, v) ∷ d else (j, w) ∷ put k v d

  -- d.setdefault(k, v)
  unfoldable pub set_default : K → V → Dict K V → Dict K V
  set_default k v d = elim (get k d) [ none ↦ d ++ (k, v) ∷ [] | some w ↦ d ]

  pub get-put_self : (k : K) (v : V) (d : Dict K V) → get k (put k v d) ≡ some v
  unfolding get put
  get-put_self k v [] = rw (==_refl k)
  get-put_self k v ((j, w) ∷ d) = elim (Bool-cases (k == j)) [
    | inl t ↦ rw t (rw t)
    | inr f ↦ rw f (rw f (get-put_self k v d))
  ]

  pub get-put_ne : (k j : K) (v : V) (d : Dict K V) → j ≢ k → get j (put k v d) ≡ get j d
  unfolding get put
  get-put_ne k j v [] h = rw (==_false j k h)
  get-put_ne k j v ((i, w) ∷ d) h = elim (Bool-cases (k == i)) [
    | inl t ↦ rw t (rw (==_false j i (λ q. h (q ∙ sym (==_true k i t)))))
    | inr f ↦ elim (Bool-cases (j == i)) [
      | inl u ↦ rw f (rw u)
      | inr u ↦ rw f (rw u (get-put_ne k j v d h))
    ]
  ]

  pub get-put :
      (k j : K) (v : V) (d : Dict K V) → get j (put k v d) ≡ (if j == k then some v else get j d)
  get-put k j v d = elim (Bool-cases (j == k)) [
    | inl t ↦ rw (t, ==_true j k t) (get-put_self k v d)
    | inr f ↦ rw f (get-put_ne k j v d (==_false→ne j k f))
  ]

  pub get-append :
      (k j : K) (v : V) (d : Dict K V)
      → get j (d ++ (k, v) ∷ [])
        ≡ elim (get j d) [ none ↦ if j == k then some v else none | some w ↦ some w ]
  unfolding get
  get-append k j v [] = refl
  get-append k j v ((i, w) ∷ d) = elim (Bool-cases (j == i)) [
    | inl t ↦ rw t refl
    | inr f ↦ rw f (get-append k j v d)
  ]

  -- A write to a key that is there keeps the keys, in their order.
  pub keys-put : (k : K) (v w : V) (d : Dict K V) → get k d ≡ some w → keys (put k v d) ≡ keys d
  unfolding get put
  keys-put k v w [] h = cc
  keys-put k v w ((j, u) ∷ d) h = elim (Bool-cases (k == j)) [
    | inl t ↦ rw t refl
    | inr f ↦ rw f (ap (λ l. j ∷ l) (keys-put k v w d (rw f at h)))
  ]

  pub get→In-keys : (k : K) (w : V) (d : Dict K V) → get k d ≡ some w → In k (keys d)
  unfolding get
  get→In-keys k w [] h = cc
  get→In-keys k w ((j, u) ∷ d) h = elim (Bool-cases (k == j)) [
    | inl t ↦ here (==_true k j t)
    | inr f ↦ there (get→In-keys k w d (rw f at h))
  ]

  pub In-keys→get : (k : K) (d : Dict K V) → In k (keys d) → (w : V) × (get k d ≡ some w)
  unfolding get
  In-keys→get k [] m = elim m [ ]
  In-keys→get k ((j, u) ∷ d) m = elim (Bool-cases (k == j)) [
    | inl t ↦ (u, rw t)
    | inr f ↦ let (w, q) = In-keys→get k d (In-tail m (==_false→ne k j f)) in (w, rw f q)
  ]

  pub get→In-values : (k : K) (w : V) (d : Dict K V) → get k d ≡ some w → In w (values d)
  unfolding get
  get→In-values k w [] h = cc
  get→In-values k w ((j, u) ∷ d) h = elim (Bool-cases (k == j)) [
    | inl t ↦ here (ground (arith, rw t at h))
    | inr f ↦ there (get→In-values k w d (rw f at h))
  ]

  pub In-values→get :
      (w : V) (d : Dict K V) → Distinct (keys d) → In w (values d) → (k : K) × (get k d ≡ some w)
  unfolding get
  In-values→get w [] n m = elim m [ ]
  In-values→get w ((j, u) ∷ d) n (here q) = (j, rw (==_refl j) (ap some (sym q)))
  In-values→get w ((j, u) ∷ d) n (there m) =
      let (k, q) = In-values→get w d n.1 m in
      (k, rw (==_false k j (λ r. n.0 (subst (λ x. In x (keys d)) r (get→In-keys k w d q)))) q)

  pub keys-put_new :
      (k : K) (v : V) (d : Dict K V) → get k d ≡ none → keys (put k v d) ≡ keys d ++ k ∷ []
  unfolding get put
  keys-put_new k v [] h = refl
  keys-put_new k v ((j, u) ∷ d) h = elim (Bool-cases (k == j)) [
    | inl t ↦ cc (t, h)
    | inr f ↦ rw f (ap (λ l. j ∷ l) (keys-put_new k v d (rw f at h)))
  ]

  pub get-none→not_In : (k : K) (d : Dict K V) → get k d ≡ none → In k (keys d) → ⊥
  get-none→not_In k d h m = let (w, q) = In-keys→get k d m in cc
