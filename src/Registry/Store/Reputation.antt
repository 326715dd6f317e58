-- ===== src/Registry/Store/Reputation.antt =====
-- What holds of every sequence of operations of core/crates/aaf-registry/src/store.rs.
use mathlib.Core.Path.{subst}
use mathlib.Core.Option.{some-ne-none}
use agentic_application_fram.Base.{
  ℕ, ◌+◌, ◌≤◌, ◌≡◌, refl, sym, inl, inr, String, Option, none, some, Bool, true, false, List, [],
  ◌∷◌, Assoc, lookup, insert, Holds, Holds-insert, lookup-insert, lookup-remove, if◌then◌else◌,
  str_eq, eq_iff, eq_refl, arith, Bool-cases,
}
use agentic_application_fram.Float.{Float}
use agentic_application_fram.Contracts.Capability.{CapabilityContract, CapabilityError, validate}
use agentic_application_fram.Registry.Store.{
  Registry, admit, register, deregister, rescore, update_reputation, too_soon, RegistryError,
  rate_limited, reputation_rate_limit,
}

module _ (F : Float) where
  pub data Op : Type 0 where
    registering : CapabilityContract F → Op
    deregistering : String → Op
    updating : ℕ → String → F.Single → String → Op

  unfoldable pub perform : Op → Registry F → Registry F
  unfolding register deregister update_reputation
  perform (registering cap) r = (register F cap r).1
  perform (deregistering id) r = deregister F id r
  perform (updating now id score evidence) r = (update_reputation F now id score evidence r).1

  unfoldable pub perform_all : List Op → Registry F → Registry F
  perform_all [] r = r
  perform_all (op ∷ ops) r = perform_all ops (perform op r)

  -- Every capability that is stored passes its validation.
  abbrev pub AllValid : Registry F → Type 0
  AllValid r = (id : String) → Holds (λ cap. validate cap ≡ none) (lookup id r.store)

  admit-AllValid :
      (o : Option CapabilityError) (cap : CapabilityContract F) (r : Registry F)
      → validate cap ≡ o
      → AllValid r
      → AllValid (admit F o cap r).1
  unfolding admit
  admit-AllValid (some e) cap r v h id = h id
  admit-AllValid none cap r v h id =
      Holds-insert (λ cap. validate cap ≡ none) cap.id id cap r.store v (h id)

  rescore-AllValid :
      (o : Option (CapabilityContract F)) (id : String) (score : F.Single) (evidence : String)
      (r : Registry F)
      → Holds (λ cap. validate cap ≡ none) o
      → AllValid r
      → AllValid (rescore F id score evidence o r).1
  unfolding rescore validate
  rescore-AllValid none id score evidence r v h j = h j
  rescore-AllValid (some cap) id score evidence r v h j =
      Holds-insert (λ cap. validate cap ≡ none) cap.id j _ r.store v (h j)

  removed-Valid :
      (b : Bool) (o : Option (CapabilityContract F))
      → Holds (λ cap. validate cap ≡ none) o
      → Holds (λ cap. validate cap ≡ none) (if b then none else o)
  removed-Valid true o h = tt
  removed-Valid false o h = h

  -- The two ways in which an update goes.
  abbrev accepted : ℕ → String → F.Single → String → Registry F → Option RegistryError × Registry F
  accepted now id score evidence r =
      rescore F id score evidence (lookup id r.store)
        (record r { reputation_rate = insert id now r.reputation_rate })

  update_ways :
      (P : Option RegistryError × Registry F → Type 0) (now : ℕ) (id : String) (score : F.Single)
      (evidence : String) (r : Registry F)
      → P (some (rate_limited id), r)
      → (too_soon now (lookup id r.reputation_rate) ≡ false → P (accepted now id score evidence r))
      → P (update_reputation F now id score evidence r)
  unfolding update_reputation
  update_ways P now id score evidence r soon later =
      elim (Bool-cases (too_soon now (lookup id r.reputation_rate))) [
        | inl e ↦
            subst
              (λ b. P (if b then (some (rate_limited id), r) else accepted now id score evidence r))
              (sym e) soon
        | inr e ↦
            subst
              (λ b. P (if b then (some (rate_limited id), r) else accepted now id score evidence r))
              (sym e) (later e)
      ]

  perform-AllValid : (op : Op) (r : Registry F) → AllValid r → AllValid (perform op r)
  unfolding perform register deregister
  perform-AllValid (registering cap) r h = admit-AllValid (validate cap) cap r refl h
  perform-AllValid (deregistering k) r h =
      λ id. rw lookup-remove (removed-Valid (str_eq k id) (lookup id r.store) (h id))
  perform-AllValid (updating now k score evidence) r h =
      update_ways (λ x. AllValid x.1) now k score evidence r h
        (λ later.
          rescore-AllValid (lookup k r.store) k score evidence
            (record r { reputation_rate = insert k now r.reputation_rate }) (h k) h)

  -- Whatever is registered, updated and removed, every capability of the registry passes its
  -- validation, so that a write-class capability declares its compensation.
  pub perform_all-AllValid_capabilities :
      (ops : List Op) (r : Registry F) → AllValid r → AllValid (perform_all ops r)
  unfolding perform_all
  perform_all-AllValid_capabilities [] r h = h
  perform_all-AllValid_capabilities (op ∷ ops) r h =
      perform_all-AllValid_capabilities ops (perform op r) (perform-AllValid op r h)

  -- The last update, where there is one, is not before a time.
  abbrev Since : ℕ → Option ℕ → Type 0
  Since t none = ⊥
  Since t (some last) = t ≤ last

  Since-free : (t now : ℕ) (o : Option ℕ) → Since t o → too_soon now o ≡ false → t ≤ now
  Since-free t now none h free = absurd h
  Since-free t now (some last) h free = ground arith

  free-spaced :
      (t now : ℕ) (o : Option ℕ)
      → Since t o
      → too_soon now o ≡ false
      → t + reputation_rate_limit ≤ now
  free-spaced t now none h free = absurd h
  free-spaced t now (some last) h free = ground arith

  Since-insert :
      (t now : ℕ) (k id : String) (m : Assoc ℕ)
      → Since t (lookup id m)
      → too_soon now (lookup k m) ≡ false
      → Since t (lookup id (insert k now m))
  Since-insert t now k id m h free = elim (Bool-cases (str_eq k id)) [
    | inl same ↦
        rw (lookup-insert, same)
          (Since-free t now (lookup k m)
            (subst (λ j. Since t (lookup j m)) (sym ((eq_iff k id).0 same)) h) free)
    | inr other ↦ rw (lookup-insert, other) h
  ]

  rescore-rate :
      (o : Option (CapabilityContract F)) (id : String) (score : F.Single) (evidence : String)
      (r : Registry F)
      → (rescore F id score evidence o r).1.reputation_rate ≡ r.reputation_rate
  unfolding rescore
  rescore-rate none id score evidence r = refl
  rescore-rate (some cap) id score evidence r = refl

  admit-rate :
      (o : Option CapabilityError) (cap : CapabilityContract F) (r : Registry F)
      → (admit F o cap r).1.reputation_rate ≡ r.reputation_rate
  unfolding admit
  admit-rate none cap r = refl
  admit-rate (some e) cap r = refl

  perform-Since :
      (t : ℕ) (id : String) (op : Op) (r : Registry F)
      → Since t (lookup id r.reputation_rate)
      → Since t (lookup id (perform op r).reputation_rate)
  unfolding perform register deregister
  perform-Since t id (registering cap) r h = rw admit-rate h
  perform-Since t id (deregistering k) r h = h
  perform-Since t id (updating now k score evidence) r h =
      update_ways (λ x. Since t (lookup id x.1.reputation_rate)) now k score evidence r h
        (λ later. rw rescore-rate (Since-insert t now k id r.reputation_rate h later))

  perform_all-Since :
      (t : ℕ) (id : String) (ops : List Op) (r : Registry F)
      → Since t (lookup id r.reputation_rate)
      → Since t (lookup id (perform_all ops r).reputation_rate)
  unfolding perform_all
  perform_all-Since t id [] r h = h
  perform_all-Since t id (op ∷ ops) r h =
      perform_all-Since t id ops (perform op r) (perform-Since t id op r h)

  applied-free :
      (now : ℕ) (id : String) (score : F.Single) (evidence : String) (r : Registry F)
      → (update_reputation F now id score evidence r).0 ≡ none
      → too_soon now (lookup id r.reputation_rate) ≡ false
  applied-free now id score evidence r =
      update_ways (λ x. x.0 ≡ none → too_soon now (lookup id r.reputation_rate) ≡ false) now id
        score evidence r (λ h. absurd (some-ne-none _ h)) (λ later h. later)

  applied-Since :
      (now : ℕ) (id : String) (score : F.Single) (evidence : String) (r : Registry F)
      → (update_reputation F now id score evidence r).0 ≡ none
      → Since now (lookup id (update_reputation F now id score evidence r).1.reputation_rate)
  unfolding update_reputation
  applied-Since now id score evidence r h =
      rw (applied-free now id score evidence r h, rescore-rate, lookup-insert, eq_refl id)
        (omega arith)

  -- Between two updates of the reputation of one capability that the registry applies, whatever
  -- else happens between them, at least 60 seconds pass.
  pub updates_spaced :
      (first second : ℕ) (id : String) (s1 s2 : F.Single) (e1 e2 : String) (ops : List Op)
      (r : Registry F)
      → (update_reputation F first id s1 e1 r).0 ≡ none
      → (update_reputation F second id s2 e2
          (perform_all ops (update_reputation F first id s1 e1 r).1)).0
        ≡ none
      → first + reputation_rate_limit ≤ second
  updates_spaced first second id s1 s2 e1 e2 ops r h k =
      free-spaced first second _
        (perform_all-Since first id ops _ (applied-Since first id s1 e1 r h))
        (applied-free second id s2 e2 _ k)
