-- ===== src/Runtime/Graph/Steps.antt =====
-- The invariant of the loop of core/crates/aaf-runtime/src/graph.rs, and its rounds.
use agentic_application_fram.Base.{
  ℕ, zero, suc, ◌+◌, ◌-◌, ◌≤◌, ◌≡◌, refl, sym, ap, ◌∙◌, inl, inr, String, Option, none, some, true,
  false, ◌&&◌, List, [], ◌∷◌, ◌++◌, Assoc, lookup, lookup-insert, if◌then◌else◌, ◌==◌, ltb, length,
  length-append, has, has-count, count, count-append, Within, length-Within, All, str_eq, eq_iff,
  eq_refl, arith, Bool-cases,
}
use agentic_application_fram.Runtime.Graph.{
  Edge, Kahn, less_one, decrease, relax, visit, drained, kahn, initial_state, ready, sort, or_empty,
  degrees, zero_degrees,
}
use agentic_application_fram.Runtime.Graph.Degrees.{
  children, waiting, Ends, lookup-degrees, degrees-missing, waiting-cons, count-sort, ready-starts,
  starts, keys_of-degrees, keys_of-zero_degrees, lookup-zero_degrees,
}

-- Each node of the list comes after all nodes with an edge to it (the last node stands first).
abbrev pub Topological : List Edge → List String → Type 0
Topological es [] = Unit
Topological es (n ∷ before) = (waiting es n before ≡ 0) × Topological es before

decrease-other :
    (c v : String) (o : Option ℕ) (s : Kahn)
    → str_eq c v ≡ false
    → (lookup v (decrease c o s).indeg ≡ lookup v s.indeg)
      × (count v (decrease c o s).queue ≡ count v s.queue)
unfolding decrease
decrease-other c v none s h = (refl, refl)
decrease-other c v (some d) s h = (
  ground (arith, lookup-insert c v (less_one d) s.indeg),
  ground (arith, count-sort v (c ∷ s.queue)),
)

decrease-same :
    (c : String) (d : ℕ) (s : Kahn)
    → (lookup c (decrease c (some (suc d)) s).indeg ≡ some d)
      × (count c (decrease c (some (suc d)) s).queue ≡ (if d == 0 then 1 else 0) + count c s.queue)
unfolding decrease
decrease-same c d s = (
  ground (arith, lookup-insert c c (less_one (suc d)) s.indeg, eq_refl c),
  ground (arith, count-sort c (c ∷ s.queue), eq_refl c),
)

decrease-order :
    (c : String) (o : Option ℕ) (s : Kahn)
    → ((decrease c o s).order ≡ s.order) × ((decrease c o s).visited ≡ s.visited)
unfolding decrease
decrease-order c none s = (refl, refl)
decrease-order c (some d) s = (ground arith, ground arith)

relax-order :
    (cs : List String) (s : Kahn)
    → ((relax cs s).order ≡ s.order) × ((relax cs s).visited ≡ s.visited)
unfolding relax
relax-order [] s = (refl, refl)
relax-order (c ∷ cs) s =
    let here = decrease-order c (lookup c s.indeg) s in
    let rest = relax-order cs (decrease c (lookup c s.indeg) s) in
    (rest.0 ∙ here.0, rest.1 ∙ here.1)

-- One child, where the node has no in-degree.
decrease-missing :
    (c v : String) (s : Kahn)
    → lookup v s.indeg ≡ none
    → let s' = decrease c (lookup c s.indeg) s in
      (lookup v s'.indeg ≡ none) × (count v s'.queue ≡ count v s.queue)
decrease-missing c v s h = elim (Bool-cases (str_eq c v)) [
  | inl same ↦ rw ((eq_iff c v).0 same, h) (unfold decrease in (h, refl))
  | inr other ↦ let here = decrease-other c v (lookup c s.indeg) s other in (here.0 ∙ h, here.1)
]

-- One child, where it is the node itself.
decrease-degree :
    (c v : String) (d : ℕ) (s : Kahn)
    → c ≡ v
    → lookup v s.indeg ≡ some (suc d)
    → let s' = decrease c (lookup c s.indeg) s in
      (lookup v s'.indeg ≡ some d)
      × (count v s'.queue ≡ (if d == 0 then 1 else 0) + count v s.queue)
decrease-degree c v d s e h = rw (e, h) (decrease-same v d s)

-- The children of a node do not touch a text that has no in-degree.
relax-missing :
    (v : String) (cs : List String) (s : Kahn)
    → lookup v s.indeg ≡ none
    → (lookup v (relax cs s).indeg ≡ none) × (count v (relax cs s).queue ≡ count v s.queue)
unfolding relax
relax-missing v [] s h = (h, refl)
relax-missing v (c ∷ cs) s h =
    let here = decrease-missing c v s h in
    let rest = relax-missing v cs (decrease c (lookup c s.indeg) s) here.0 in
    (rest.0, rest.1 ∙ here.1)

-- A node of in-degree d loses one for each time that it is a child, and joins the queue at 0.
relax-degree :
    (v : String) (d : ℕ) (cs : List String) (s : Kahn)
    → lookup v s.indeg ≡ some d
    → count v cs ≤ d
    → (lookup v (relax cs s).indeg ≡ some (d - count v cs))
      × (count v (relax cs s).queue
          ≡ (if ltb 0 (count v cs) && count v cs == d then 1 else 0) + count v s.queue)
unfolding relax
relax-degree v d [] s h le = (ground arith, ground arith)
relax-degree v zero (c ∷ cs) s h le = ground (
  arith,
  decrease-other c v (lookup c s.indeg) s,
  relax-degree v zero cs (decrease c (lookup c s.indeg) s),
)
relax-degree v (suc d) (c ∷ cs) s h le = ground (
  arith,
  decrease-other c v (lookup c s.indeg) s,
  decrease-degree c v d s,
  eq_iff c v,
  relax-degree v (suc d) cs (decrease c (lookup c s.indeg) s),
  relax-degree v d cs (decrease c (lookup c s.indeg) s),
)

module _ (ids : List String) (edges : List Edge) where
  pub record Inv (s : Kahn) : Type 0 where
    pub degree :
        (v : String)
        → lookup v s.indeg ≡ (if has v ids then some (waiting edges v s.order) else none)
    pub once :
        (v : String)
        → count v s.order + count v s.queue
          ≡ (if has v ids && waiting edges v s.order == 0 then 1 else 0)
    pub same : s.visited ≡ s.order
    pub sorted : Topological edges s.order

  module _ (adj : Assoc (List String)) (n : String) (queue : List String) (s : Kahn)
      (follows : or_empty (lookup n adj) ≡ children n edges) (first : s.queue ≡ n ∷ queue)
      (inv : Inv s) where
    popped : (count n s.order ≡ 0) × (waiting edges n s.order ≡ 0)
    popped = ground (arith, inv.once n, first, eq_refl n)

    fresh : has n s.order ≡ false
    fresh = ground (arith, popped, has-count n s.order)

    after : Kahn
    after = record s { queue = queue; order = n ∷ s.order; visited = n ∷ s.visited }

    visit-relax : visit adj n queue s ≡ relax (children n edges) after
    unfolding visit after
    visit-relax = rw (follows, inv.same, fresh)

    -- What the node stands for in the in-degree of another, before and after.
    fewer :
        (v : String)
        → waiting edges v s.order ≡ waiting edges v (n ∷ s.order) + count v (children n edges)
    fewer v = ground (arith, waiting-cons edges v n s.order, fresh)

    relax-node :
        (v : String)
        → has v ids ≡ true
        → let s' = relax (children n edges) after in
          (lookup v s'.indeg ≡ some (waiting edges v (n ∷ s.order)))
          × (count v (n ∷ s.order) + count v s'.queue
              ≡ (if waiting edges v (n ∷ s.order) == 0 then 1 else 0))
    unfolding after
    relax-node v h =
        let d = waiting edges v s.order in
        let here =
          relax-degree v d (children n edges) after (ground (arith, inv.degree v))
            (omega (arith, fewer v)) in
        (ground (arith, here.0, fewer v), ground (arith, here.1, fewer v, inv.once v, first))

    relax-other :
        (v : String)
        → has v ids ≡ false
        → let s' = relax (children n edges) after in
          (lookup v s'.indeg ≡ none) × (count v (n ∷ s.order) + count v s'.queue ≡ 0)
    unfolding after
    relax-other v h =
        let here = relax-missing v (children n edges) after (ground (arith, inv.degree v)) in
        (here.0, ground (arith, here.1, inv.once v, first))

    relaxed : (relax (children n edges) after).order ≡ n ∷ s.order
    unfolding after
    relaxed = (relax-order (children n edges) after).0

    relax-same : (relax (children n edges) after).visited ≡ n ∷ s.order
    unfolding after
    relax-same = (relax-order (children n edges) after).1 ∙ ap (λ l. n ∷ l) inv.same

    relax-Inv : Inv (relax (children n edges) after)
    relax-Inv = record {
      degree = λ v. rw relaxed (elim (Bool-cases (has v ids)) [
        | inl h ↦ rw h (relax-node v h).0
        | inr h ↦ rw h (relax-other v h).0
      ]);
      once = λ v. rw relaxed (elim (Bool-cases (has v ids)) [
        | inl h ↦ rw h (relax-node v h).1
        | inr h ↦ rw h (relax-other v h).1
      ]);
      same = relax-same ∙ sym relaxed;
      sorted = rw relaxed (popped.1, inv.sorted);
    }

    pub visit-Inv : Inv (visit adj n queue s)
    visit-Inv = rw visit-relax relax-Inv

  -- What the loop ends with: the invariant, and no more nodes in the queue.
  pub record Drained (s : Kahn) : Type 0 where
    pub inv : Inv s
    pub empty : s.queue ≡ []

  within : (s : Kahn) → Inv s → Within (s.order ++ s.queue) ids
  within s inv v = ground (arith, count-append v s.order s.queue, inv.once v, has-count v ids)

  room : (s : Kahn) → Inv s → length s.order + length s.queue ≤ length ids
  room s inv =
      omega (
        arith,
        length-append s.order s.queue,
        length-Within (s.order ++ s.queue) ids (within s inv),
      )

  module _ (adj : Assoc (List String))
      (follows : (n : String) → or_empty (lookup n adj) ≡ children n edges) where
    visited-order :
        (s : Kahn) (n : String) (queue : List String)
        → length (visit adj n queue s).order ≡ suc (length s.order)
    unfolding visit
    visited-order s n queue = ap length (relax-order (or_empty (lookup n adj)) _).0

    -- Enough fuel ends the loop.
    pub kahn-Drained :
        (fuel : ℕ) (s : Kahn)
        → Inv s
        → length ids ≤ length s.order + fuel
        → (t : Kahn) × (kahn fuel adj s ≡ some t) × Drained t
    unfolding kahn
    kahn-Drained zero s inv enough = by_queue s.queue refl
      where
        by_queue :
            (queue : List String)
            → s.queue ≡ queue
            → (t : Kahn) × (drained s.queue s ≡ some t) × Drained t
        by_queue [] e = (s, simp e, record { inv = inv; empty = e })
        by_queue (n ∷ queue) e = absurd (omega (arith, room s inv, ap length e))
    kahn-Drained (suc fuel) s inv enough = by_queue s.queue refl (λ n queue e.
        kahn-Drained fuel (visit adj n queue s) (visit-Inv adj n queue s (follows n) e inv)
          (omega (arith, visited-order s n queue)))
      where
        by_queue :
            (queue : List String)
            → s.queue ≡ queue
            → ((n : String) (queue : List String)
                → s.queue ≡ n ∷ queue
                → (t : Kahn) × (kahn fuel adj (visit adj n queue s) ≡ some t) × Drained t)
            → (t : Kahn) × (elim s.queue [
              | [] ↦ some s
              | n ∷ queue ↦ kahn fuel adj (visit adj n queue s)
            ]
                ≡ some t)
              × Drained t
        by_queue [] e rest = (s, simp e, record { inv = inv; empty = e })
        by_queue (n ∷ queue) e rest =
            let found = rest n queue e in (found.0, simp e found.1, found.2)

  module _ (ends : All (Ends ids) edges) (distinct : (v : String) → count v ids ≤ 1) where
    start-degree :
        (v : String)
        → lookup v (degrees edges (zero_degrees ids))
          ≡ (if has v ids then some (waiting edges v []) else none)
    start-degree v = elim (Bool-cases (has v ids)) [
      | inl h ↦ rw h (
          lookup-degrees v 0 edges (zero_degrees ids) (ground (arith, lookup-zero_degrees v ids))
          ∙ (ground arith))
      | inr h ↦ rw h (
          degrees-missing v ids edges (zero_degrees ids) h ends
            (ground (arith, lookup-zero_degrees v ids)))
    ]

    start-ready :
        (v : String)
        → count v (sort (ready (degrees edges (zero_degrees ids))))
          ≡ starts (lookup v (degrees edges (zero_degrees ids)))
    start-ready v =
        count-sort v _
        ∙ ready-starts v (degrees edges (zero_degrees ids)) (
            rw
              (keys_of-degrees v ids edges (zero_degrees ids) ends
                (λ k. ap (has k) (keys_of-zero_degrees ids)))
              (rw keys_of-zero_degrees (distinct v)))

    pub initial_state-Inv : Inv (initial_state ids edges)
    unfolding initial_state
    initial_state-Inv = record {
      degree = start-degree;
      once = λ v. ground (arith, start-degree v, start-ready v);
      same = refl;
      sorted = tt;
    }
