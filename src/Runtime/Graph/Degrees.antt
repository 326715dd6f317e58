-- ===== src/Runtime/Graph/Degrees.antt =====
-- What the data of the loop of core/crates/aaf-runtime/src/graph.rs hold at its start: children,
-- in-degrees and the first queue.
use mathlib.Core.List.{append-nil, append_assoc}
use agentic_application_fram.Base.{
  ℕ, ◌+◌, ◌≤◌, ◌≡◌, refl, sym, ap, ◌∙◌, inl, inr, String, Option, none, some, true, false, not,
  ◌&&◌, List, [], ◌∷◌, ◌++◌, Assoc, lookup, insert, lookup-insert, if◌then◌else◌, ◌==◌, has,
  has-count, count, All, str_eq, eq_iff, arith, Bool-cases,
}
use agentic_application_fram.Runtime.Graph.{
  Edge, keys_of, missing_end, zero_degrees, degrees, adjacency, or_zero, or_empty, enqueue, sort,
  ready,
}

-- The targets of the edges of a node, in the order of the edges.
pub children : String → List Edge → List String
children n [] = []
children n (e ∷ es) = let rest = children n es in if str_eq e.from n then e.to ∷ rest else rest

-- The number of edges into a node that come from no node of a list.
unfoldable pub waiting : List Edge → String → List String → ℕ
waiting [] v done = 0
waiting (e ∷ es) v done =
    (if str_eq e.to v && not (has e.from done) then 1 else 0) + waiting es v done

-- Both ends of an edge are nodes.
abbrev pub Ends : List String → Edge → Type 0
Ends ids e = (has e.from ids ≡ true) × (has e.to ids ≡ true)

pub missing_end-Ends :
    (ids : List String) (es : List Edge) → missing_end ids es ≡ none → All (Ends ids) es
unfolding missing_end
missing_end-Ends ids [] h = tt
missing_end-Ends ids (e ∷ es) h = (ground arith, missing_end-Ends ids es (ground arith))

pub adjacency-children :
    (n : String) (es : List Edge) (adj : Assoc (List String))
    → or_empty (lookup n (adjacency es adj)) ≡ or_empty (lookup n adj) ++ children n es
unfolding adjacency children or_empty
adjacency-children n [] adj = sym (append-nil _)
adjacency-children n (e ∷ es) adj = elim (Bool-cases (str_eq e.from n)) [
  | inl same ↦
      adjacency-children n es _
      ∙ (rw (lookup-insert, same, (eq_iff e.from n).0 same) (append_assoc _ (e.to ∷ []) _))
  | inr other ↦ adjacency-children n es _ ∙ (rw (lookup-insert, other) refl)
]

pub lookup-degrees :
    (v : String) (d : ℕ) (es : List Edge) (indeg : Assoc ℕ)
    → lookup v indeg ≡ some d
    → lookup v (degrees es indeg) ≡ some (d + waiting es v [])
unfolding degrees waiting or_zero
lookup-degrees v d [] indeg h = ground arith
lookup-degrees v d (e ∷ es) indeg h = elim (Bool-cases (str_eq e.to v)) [
  | inl same ↦
      lookup-degrees v (d + 1) es _ (
        ground (arith, lookup-insert e.to v (or_zero (lookup e.to indeg) + 1) indeg, eq_iff e.to v))
      ∙ (ground arith)
  | inr other ↦
      lookup-degrees v d es _
        (ground (arith, lookup-insert e.to v (or_zero (lookup e.to indeg) + 1) indeg))
      ∙ (ground arith)
]

pub degrees-missing :
    (v : String) (ids : List String) (es : List Edge) (indeg : Assoc ℕ)
    → has v ids ≡ false
    → All (Ends ids) es
    → lookup v indeg ≡ none
    → lookup v (degrees es indeg) ≡ none
unfolding degrees
degrees-missing v ids [] indeg n ends h = h
degrees-missing v ids (e ∷ es) indeg n ends h = degrees-missing v ids es _ n ends.1 (
    ground
      (arith, lookup-insert e.to v (or_zero (lookup e.to indeg) + 1) indeg, eq_iff e.to v, ends.0))

pub waiting-cons :
    (es : List Edge) (v n : String) (done : List String)
    → waiting es v done
      ≡ waiting es v (n ∷ done) + (if has n done then 0 else count v (children n es))
unfolding waiting children
waiting-cons [] v n done = ground arith
waiting-cons (e ∷ es) v n done =
    ground (arith, waiting-cons es v n done, eq_iff e.from n, eq_iff n e.from)

pub count-enqueue : (v x : String) (xs : List String) → count v (enqueue x xs) ≡ count v (x ∷ xs)
unfolding enqueue
count-enqueue v x [] = refl
count-enqueue v x (y ∷ ys) = ground (arith, count-enqueue v x ys)

pub count-sort : (v : String) (xs : List String) → count v (sort xs) ≡ count v xs
unfolding sort
count-sort v [] = refl
count-sort v (x ∷ xs) = ground (arith, count-enqueue v x (sort xs), count-sort v xs)

count-ready : (v : String) (m : Assoc ℕ) → count v (ready m) ≤ count v (keys_of m)
unfolding ready
count-ready v [] = omega arith
count-ready v ((k, d) ∷ m) = ground (arith, count-ready v m)

-- Whether a node stands in the first queue, by its in-degree.
abbrev pub starts : Option ℕ → ℕ
starts none = 0
starts (some d) = if d == 0 then 1 else 0

pub ready-starts :
    (v : String) (m : Assoc ℕ) → count v (keys_of m) ≤ 1 → count v (ready m) ≡ starts (lookup v m)
unfolding ready lookup
ready-starts v [] h = refl
ready-starts v ((k, d) ∷ m) h = ground (arith, ready-starts v m, count-ready v m)

keys_of-insert :
    (v k : String) (d : ℕ) (m : Assoc ℕ)
    → has k (keys_of m) ≡ true
    → count v (keys_of (insert k d m)) ≡ count v (keys_of m)
unfolding insert
keys_of-insert v k d [] h = ground arith
keys_of-insert v k d ((j, x) ∷ m) h = ground (arith, keys_of-insert v k d m, eq_iff j k)

pub keys_of-degrees :
    (v : String) (ids : List String) (es : List Edge) (indeg : Assoc ℕ)
    → All (Ends ids) es
    → ((k : String) → has k (keys_of indeg) ≡ has k ids)
    → count v (keys_of (degrees es indeg)) ≡ count v (keys_of indeg)
unfolding degrees
keys_of-degrees v ids [] indeg ends h = refl
keys_of-degrees v ids (e ∷ es) indeg ends h =
    let there = h e.to ∙ ends.0.1 in
    keys_of-degrees v ids es _ ends.1 (λ k.
      has-count k (keys_of (insert e.to (or_zero (lookup e.to indeg) + 1) indeg))
      ∙ (rw (keys_of-insert k e.to (or_zero (lookup e.to indeg) + 1) indeg there)
          (sym (has-count k (keys_of indeg)) ∙ h k)))
    ∙ keys_of-insert v e.to _ indeg there

pub keys_of-zero_degrees : (ids : List String) → keys_of (zero_degrees ids) ≡ ids
unfolding zero_degrees
keys_of-zero_degrees [] = refl
keys_of-zero_degrees (k ∷ ids) = ap (λ l. k ∷ l) (keys_of-zero_degrees ids)

pub lookup-zero_degrees :
    (v : String) (ids : List String)
    → lookup v (zero_degrees ids) ≡ (if has v ids then some 0 else none)
unfolding zero_degrees lookup
lookup-zero_degrees v [] = refl
lookup-zero_degrees v (k ∷ ids) = ground (arith, lookup-zero_degrees v ids)
