-- ===== src/Planner/Cache/Fifo.antt =====
-- The size and the order of eviction of core/crates/aaf-planner/src/cache.rs.
use mathlib.Core.Path.{subst}
use agentic_application_fram.Base.{
  ℕ, suc, ◌≤◌, max, ◌≡◌, ◌≢◌, refl, ap, sym, inl, inr, String, none, some, Bool, true, false, not,
  ◌&&◌, List, [], ◌∷◌, ◌++◌, Assoc, lookup, insert, adjust, remove, if◌then◌else◌, leb, length, has,
  has-count, count, count-append, str_eq, eq_iff, eq_refl, arith, lookup-insert, lookup-adjust,
  Bool-cases,
}
use agentic_application_fram.Runtime.Graph.{keys_of, contains_key}
use agentic_application_fram.Planner.Cache.{CacheInner, evict, store, put, with_capacity}

abbrev pub is_oldest : String → List String → Bool
is_oldest j [] = false
is_oldest j (k ∷ ks) = str_eq k j

module _ {P : Type 0} where
  -- The order holds the keys of the map, each of them once, and the map is not larger than the
  -- capacity, or than one entry where the capacity is 0.
  pub record Valid (c : CacheInner P) : Type 0 where
    pub same : keys_of c.map ≡ c.order
    pub distinct : (v : String) → count v c.order ≤ 1
    pub bounded : length c.map ≤ max c.capacity 1

  remove-missing : (k : String) (m : Assoc P) → has k (keys_of m) ≡ false → remove k m ≡ m
  unfolding remove
  remove-missing k [] h = refl
  remove-missing k ((j, v) ∷ m) h = ground (arith, remove-missing k m)

  keys_of-insert :
      (k : String) (p : P) (m : Assoc P)
      → has k (keys_of m) ≡ false
      → keys_of (insert k p m) ≡ keys_of m ++ k ∷ []
  unfolding insert
  keys_of-insert k p [] h = refl
  keys_of-insert k p ((j, v) ∷ m) h = ground (arith, keys_of-insert k p m)

  keys_of-adjust : (k : String) (f : P → P) (m : Assoc P) → keys_of (adjust k f m) ≡ keys_of m
  unfolding adjust
  keys_of-adjust k f [] = refl
  keys_of-adjust k f ((j, v) ∷ m) = ground (arith, keys_of-adjust k f m)

  length-keys_of : (m : Assoc P) → length (keys_of m) ≡ length m
  length-keys_of [] = refl
  length-keys_of ((j, v) ∷ m) = ap suc (length-keys_of m)

  -- The cache whose order is that of its map.
  abbrev filled : ℕ → Assoc P → CacheInner P
  filled n m = record { map = m; order = keys_of m; capacity = n }

  record Fits (n : ℕ) (m : Assoc P) : Type 0 where
    distinct : (v : String) → count v (keys_of m) ≤ 1
    bounded : length m ≤ max n 1

  abbrev without_oldest : Assoc P → Assoc P
  without_oldest [] = []
  without_oldest (e ∷ m) = m

  abbrev evicted : ℕ → Assoc P → Assoc P
  evicted n m = if leb n (length m) then without_oldest m else m

  -- The map after a put.
  abbrev next : String → P → ℕ → Assoc P → Assoc P
  next k p n m = if contains_key k m then adjust k (λ slot. p) m else insert k p (evicted n m)

  evict-stop :
      (order : List String) (c : CacheInner P)
      → leb c.capacity (length c.map) ≡ false
      → evict order c ≡ record c { order = order }
  unfolding evict
  evict-stop [] c h = refl
  evict-stop (k ∷ ks) c h = rw h refl

  evict-entry :
      (k : String) (v : P) (m : Assoc P) (n : ℕ)
      → has k (keys_of m) ≡ false
      → leb n (suc (length m)) ≡ true
      → suc (length m) ≤ max n 1
      → evict (k ∷ keys_of m) (record { map = (k, v) ∷ m; order = k ∷ keys_of m; capacity = n })
        ≡ record { map = m; order = keys_of m; capacity = n }
  unfolding evict remove
  evict-entry k v [] n fresh full bounded = rw (full, eq_refl k) refl
  evict-entry k v (e ∷ m) n fresh full bounded =
      rw (full, eq_refl k, remove-missing k (e ∷ m) fresh)
        (evict-stop (keys_of (e ∷ m)) _ (ground arith))

  Fits-fresh :
      (k : String) (v : P) (m : Assoc P) (n : ℕ) → Fits n ((k, v) ∷ m) → has k (keys_of m) ≡ false
  Fits-fresh k v m n fits = ground (arith, fits.distinct k, eq_refl k, has-count k (keys_of m))

  evict-nil :
      (n : ℕ) (b : Bool) → evict [] (filled n []) ≡ filled n (if b then without_oldest [] else [])
  unfolding evict
  evict-nil n true = refl
  evict-nil n false = refl

  evict-evicted :
      (n : ℕ) (m : Assoc P) → Fits n m → evict (keys_of m) (filled n m) ≡ filled n (evicted n m)
  evict-evicted n [] fits = evict-nil n (leb n 0)
  evict-evicted n ((k, v) ∷ m) fits = elim (Bool-cases (leb n (suc (length m)))) [
    | inl full ↦ rw full (evict-entry k v m n (Fits-fresh k v m n fits) full fits.bounded)
    | inr room ↦ rw room (evict-stop (k ∷ keys_of m) _ room)
  ]

  evicted-Fits : (n : ℕ) (m : Assoc P) → Fits n m → Fits n (evicted n m)
  evicted-Fits n [] fits = record { distinct = λ v. ground arith; bounded = ground arith }
  evicted-Fits n ((k, v) ∷ m) fits = record {
    distinct = λ w. ground (arith, fits.distinct w);
    bounded = ground (arith, fits.bounded);
  }

  evicted-room : (n : ℕ) (m : Assoc P) → Fits n m → suc (length (evicted n m)) ≤ max n 1
  evicted-room n [] fits = ground arith
  evicted-room n (e ∷ m) fits = ground (arith, fits.bounded)

  has-evicted :
      (k : String) (n : ℕ) (m : Assoc P)
      → has k (keys_of m) ≡ false
      → has k (keys_of (evicted n m)) ≡ false
  has-evicted k n [] h = ground arith
  has-evicted k n (e ∷ m) h = ground arith

  put-next :
      (k : String) (p : P) (n : ℕ) (m : Assoc P)
      → Fits n m
      → put k p (filled n m) ≡ filled n (next k p n m)
  unfolding put store
  put-next k p n m fits = elim (Bool-cases (has k (keys_of m))) [
    | inl old ↦ rw old (
        ap (λ o. record { map = adjust k (λ slot. p) m; order = o; capacity = n })
          (sym (keys_of-adjust k _ m)))
    | inr new ↦
        rw (new, evict-evicted n m fits)
          (ap (λ o. record { map = insert k p (evicted n m); order = o; capacity = n })
            (sym (keys_of-insert k p _ (has-evicted k n m new))))
  ]

  length-insert :
      (k : String) (p : P) (m : Assoc P)
      → has k (keys_of m) ≡ false
      → length (insert k p m) ≡ suc (length m)
  unfolding insert
  length-insert k p [] h = refl
  length-insert k p ((j, v) ∷ m) h = ground (arith, length-insert k p m)

  lookup-missing : (k : String) (m : Assoc P) → has k (keys_of m) ≡ false → lookup k m ≡ none
  unfolding lookup
  lookup-missing k [] h = refl
  lookup-missing k ((j, v) ∷ m) h = ground (arith, lookup-missing k m)

  lookup-present : (k : String) (m : Assoc P) → has k (keys_of m) ≡ true → lookup k m ≢ none
  unfolding lookup
  lookup-present k [] h = ground arith
  lookup-present k ((j, v) ∷ m) h = ground (arith, lookup-present k m)

  lookup-evicted :
      (j : String) (n : ℕ) (m : Assoc P)
      → Fits n m
      → lookup j (evicted n m)
        ≡ (if leb n (length m) && is_oldest j (keys_of m) then none else lookup j m)
  unfolding lookup
  lookup-evicted j n [] fits = ground arith
  lookup-evicted j n ((k, v) ∷ m) fits =
      ground (arith, lookup-missing k m (Fits-fresh k v m n fits), eq_iff k j)

  next-Fits : (k : String) (p : P) (n : ℕ) (m : Assoc P) → Fits n m → Fits n (next k p n m)
  next-Fits k p n m fits = elim (Bool-cases (has k (keys_of m))) [
    | inl old ↦ rw old (record {
      distinct = λ v. rw (keys_of-adjust k _ m) (fits.distinct v);
      bounded = ground (
        arith,
        fits.bounded,
        length-keys_of (adjust k (λ slot. p) m),
        length-keys_of m,
        keys_of-adjust k (λ slot. p) m,
      );
    })
    | inr new ↦ rw new (record {
      distinct = λ v. rw (keys_of-insert k p _ (has-evicted k n m new)) (
          ground (
            arith,
            count-append v (keys_of (evicted n m)) (k ∷ []),
            (evicted-Fits n m fits).distinct v,
            eq_iff k v,
            has-evicted k n m new,
            has-count k (keys_of (evicted n m)),
          ));
      bounded =
          ground
            (arith, evicted-room n m fits, length-insert k p (evicted n m) (has-evicted k n m new));
    })
  ]

  lookup-next :
      (j k : String) (p : P) (n : ℕ) (m : Assoc P)
      → Fits n m
      → lookup j (next k p n m) ≡ (
          if str_eq k j
          then some p
          else if not (contains_key k m) && leb n (length m) && is_oldest j (keys_of m)
          then none
          else lookup j m)
  lookup-next j k p n m fits = elim (Bool-cases (has k (keys_of m))) [
    | inl old ↦ rw (old, lookup-adjust) (ground (arith, eq_iff k j, lookup-present k m old))
    | inr new ↦ rw (new, lookup-insert, lookup-evicted j n m fits) (ground (arith))
  ]

  -- A sequence of puts.
  unfoldable pub puts : List (String × P) → CacheInner P → CacheInner P
  puts [] c = c
  puts ((key, plan) ∷ rest) c = puts rest (put key plan c)

  filled-Valid : (n : ℕ) (m : Assoc P) → Fits n m → Valid (filled n m)
  filled-Valid n m fits = record { same = refl; distinct = fits.distinct; bounded = fits.bounded }

  Valid-filled :
      (c : CacheInner P) → Valid c → Fits c.capacity c.map × (filled c.capacity c.map ≡ c)
  Valid-filled c valid = (
    record {
      distinct = λ v. ground (arith, valid.same, valid.distinct v);
      bounded = valid.bounded;
    },
    ap (λ o. record c { order = o }) valid.same,
  )

  put-Valid : (key : String) (plan : P) (c : CacheInner P) → Valid c → Valid (put key plan c)
  put-Valid key plan c valid =
      let parts = Valid-filled c valid in
      subst (λ d. Valid (put key plan d)) parts.1
        (rw (put-next key plan c.capacity c.map parts.0)
          (filled-Valid c.capacity _ (next-Fits key plan c.capacity c.map parts.0)))

  puts-Valid : (entries : List (String × P)) (c : CacheInner P) → Valid c → Valid (puts entries c)
  unfolding puts
  puts-Valid [] c valid = valid
  puts-Valid ((key, plan) ∷ rest) c valid =
      puts-Valid rest (put key plan c) (put-Valid key plan c valid)

  -- Whatever was put into a new cache, it holds at most its capacity of plans, or one where its
  -- capacity is 0, and the order of eviction lists the keys of its plans, each of them once.
  pub puts-new-Valid :
      (entries : List (String × P)) (n : ℕ) → Valid (puts entries (with_capacity n))
  puts-new-Valid entries n =
      puts-Valid entries (with_capacity n)
        (record { same = refl; distinct = λ v. ground arith; bounded = ground arith })

  -- In a valid cache a put stores its plan under its key. Every other plan stays, but for the oldest
  -- one, which is evicted exactly where the key is new and the cache is full.
  pub lookup-put :
      (j key : String) (plan : P) (c : CacheInner P)
      → Valid c
      → lookup j (put key plan c).map ≡ (
          if str_eq key j
          then some plan
          else if not (contains_key key c.map)
              && leb c.capacity (length c.map)
              && is_oldest j c.order
          then none
          else lookup j c.map)
  lookup-put j key plan c valid =
      let parts = Valid-filled c valid in
      subst
        (λ d. lookup j (put key plan d).map ≡ (
          if str_eq key j
          then some plan
          else if not (contains_key key c.map)
              && leb c.capacity (length c.map)
              && is_oldest j d.order
          then none
          else lookup j c.map))
        parts.1
        (rw (put-next key plan c.capacity c.map parts.0)
          (lookup-next j key plan c.capacity c.map parts.0))
