-- ===== src/Runtime/Graph/Order.antt =====
-- The order that core/crates/aaf-runtime/src/graph.rs gives to a graph, and when it gives one.
use mathlib.Core.Path.{subst}
use mathlib.Core.List.{reverse-reverse, append-nil, append_assoc, reverse-append, reverse-cons}
use agentic_application_fram.Base.{
  ◌≤◌, ◌≡◌, refl, sym, ap, ◌∙◌, inl, inr, String, some, true, ◌&&◌, List, [], ◌∷◌, ◌++◌, reverse,
  lookup, if◌then◌else◌, ◌==◌, length, has, has-count, count, has-append, count-reverse, Within,
  length-Within, All, str_eq, eq_iff, eq_refl, arith, Bool-cases,
}
use agentic_application_fram.Runtime.Graph.{Edge, Kahn, adjacency, kahn, initial_state, or_empty}
use agentic_application_fram.Runtime.Graph.Degrees.{waiting, Ends, adjacency-children}
use agentic_application_fram.Runtime.Graph.Steps.{
  Topological, Drained, kahn-Drained, initial_state-Inv,
}

-- The keys of a map are distinct.
abbrev pub Distinct : List String → Type 0
Distinct ids = (v : String) → count v ids ≤ 1

-- Wherever the target of an edge stands in the order, its source stands before.
abbrev pub Sorted : List Edge → List String → Type 0
Sorted edges order =
    All
      (λ e.
        (before after : List String) → order ≡ before ++ e.to ∷ after → has e.from before ≡ true)
      edges

waiting-zero :
    (n : String) (done : List String) (es : List Edge)
    → All (λ e. str_eq e.to n ≡ true → has e.from done ≡ true) es
    → waiting es n done ≡ 0
unfolding waiting
waiting-zero n done [] h = refl
waiting-zero n done (e ∷ es) h = ground (arith, h.0, waiting-zero n done es h.1)

zero-waiting :
    (n : String) (done : List String) (es : List Edge)
    → waiting es n done ≡ 0
    → All (λ e. str_eq e.to n ≡ true → has e.from done ≡ true) es
unfolding waiting
zero-waiting n done [] h = tt
zero-waiting n done (e ∷ es) h = (λ same. ground arith, zero-waiting n done es (ground arith))

Topological-suffix :
    (es : List Edge) (later : List String) (n : String) (before : List String)
    → Topological es (later ++ n ∷ before)
    → waiting es n before ≡ 0
Topological-suffix es [] n before h = h.0
Topological-suffix es (x ∷ later) n before h = Topological-suffix es later n before h.1

has-reverse : (v : String) (xs : List String) → has v (reverse xs) ≡ has v xs
has-reverse v xs = ground (arith, has-count v (reverse xs), has-count v xs, count-reverse v xs)

reverse-split :
    (before after order : List String) (n : String)
    → reverse order ≡ before ++ n ∷ after
    → order ≡ reverse after ++ n ∷ reverse before
reverse-split before after order n h =
    sym (reverse-reverse order)
    ∙ ap reverse h
    ∙ reverse-append before (n ∷ after)
    ∙ ap (λ l. l ++ reverse before) (reverse-cons n after)
    ∙ append_assoc (reverse after) (n ∷ []) (reverse before)

waiting-reverse :
    (es : List Edge) (n : String) (done : List String)
    → waiting es n (reverse done) ≡ waiting es n done
unfolding waiting
waiting-reverse [] n done = refl
waiting-reverse (e ∷ es) n done = ground (arith, waiting-reverse es n done, has-reverse e.from done)

Sorted-waiting :
    (es : List Edge) (order : List String)
    → ((before after : List String) (n : String)
        → order ≡ before ++ n ∷ after
        → waiting es n before ≡ 0)
    → Sorted es order
unfolding waiting
Sorted-waiting [] order h = tt
Sorted-waiting (e ∷ es) order h = (
  λ before after split. ground (arith, h before after e.to split, eq_refl e.to),
  Sorted-waiting es order (λ before after n split. ground (arith, h before after n split)),
)

pub Topological-Sorted :
    (edges : List Edge) (order : List String)
    → Topological edges order
    → Sorted edges (reverse order)
Topological-Sorted edges order h = Sorted-waiting edges (reverse order) (λ before after n split.
    sym (waiting-reverse edges n before)
    ∙ Topological-suffix edges (reverse after) n (reverse before)
        (subst (Topological edges) (reverse-split before after order n split) h))

-- What is known of a graph whose ends are nodes.
module _ (ids : List String) (edges : List Edge) (distinct : Distinct ids)
    (ends : All (Ends ids) edges) where
  pub ended :
      (t : Kahn) × (kahn (length ids) (adjacency edges []) (initial_state ids edges) ≡ some t)
      × Drained ids edges t
  unfolding or_empty lookup
  ended =
      kahn-Drained ids edges (adjacency edges []) (λ n. adjacency-children n edges []) (length ids)
        (initial_state ids edges) (initial_state-Inv ids edges ends distinct) (omega arith)

  module _ (t : Kahn) (d : Drained ids edges t) where
    visits :
        (v : String)
        → count v t.order ≡ (if has v ids && waiting edges v t.order == 0 then 1 else 0)
    visits v = ground (arith, d.inv.once v, d.empty)

    pub order-Within : Within t.order ids
    order-Within v = ground (arith, visits v, has-count v ids)

    -- The nodes of a sorted plan are visited one after the other.
    module _ (plan : List String) (sorted : Sorted edges plan) where
      sources_visited :
          (before after : List String) (n : String) (es : List Edge)
          → plan ≡ before ++ n ∷ after
          → ((v : String) → has v before ≡ true → has v ids ≡ true → has v t.order ≡ true)
          → Sorted es plan
          → All (Ends ids) es
          → All (λ e. str_eq e.to n ≡ true → has e.from t.order ≡ true) es
      sources_visited before after n [] split earlier s known = tt
      sources_visited before after n (e ∷ es) split earlier s known = (
        λ same.
            earlier e.from
              (s.0 before after
                (split ∙ ap (λ m. before ++ m ∷ after) (sym ((eq_iff e.to n).0 same))))
              known.0.0,
        sources_visited before after n es split earlier s.1 known.1,
      )

      visited_next :
          (before after : List String) (n : String)
          → plan ≡ before ++ n ∷ after
          → ((v : String) → has v before ≡ true → has v ids ≡ true → has v t.order ≡ true)
          → has n ids ≡ true
          → has n t.order ≡ true
      visited_next before after n split earlier node = ground (
        arith,
        waiting-zero n t.order edges
            (sources_visited before after n edges split earlier sorted ends),
        visits n,
        has-count n t.order,
      )

      all_visited :
          (rest before : List String)
          → plan ≡ before ++ rest
          → ((v : String) → has v before ≡ true → has v ids ≡ true → has v t.order ≡ true)
          → (v : String) → has v plan ≡ true
          → has v ids ≡ true
          → has v t.order ≡ true
      all_visited [] before split earlier v h node =
          earlier v (ap (has v) (sym (append-nil before) ∙ sym split) ∙ h) node
      all_visited (n ∷ rest) before split earlier v h node =
          all_visited rest (before ++ n ∷ []) (split ∙ sym (append_assoc before (n ∷ []) rest))
            (λ w there known. elim (Bool-cases (str_eq n w)) [
              | inl same ↦
                  let e = (eq_iff n w).0 same in
                  subst (λ m. has m t.order ≡ true) e
                    (visited_next before rest n split earlier (ap (λ m. has m ids) e ∙ known))
              | inr other ↦ earlier w (ground (arith, has-append w before (n ∷ []))) known
            ])
            v h node

      pub order-length :
          ((v : String) → has v ids ≡ true → has v plan ≡ true) → length t.order ≡ length ids
      order-length covers = omega (
        arith,
        length-Within t.order ids order-Within,
        length-Within ids t.order (λ v. all_within v),
      )
        where
          all_within : (v : String) → count v ids ≤ count v t.order
          all_within v = elim (Bool-cases (has v ids)) [
            | inl node ↦
                let there =
                  all_visited plan [] refl (λ w none_yet known. ground arith) v (covers v node)
                    node in
                ground (arith, distinct v, has-count v t.order)
            | inr other ↦ ground (arith, has-count v ids)
          ]
