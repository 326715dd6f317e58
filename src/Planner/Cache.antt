-- ===== src/Planner/Cache.antt =====
-- core/crates/aaf-planner/src/cache.rs: the cache of plans. The digest of a key is a parameter.
pub mod Fifo
use Prim.Native.String.{◌++◌ as str_append}
use agentic_application_fram.Base.{
  ℕ, zero, suc, ◌+◌, ◌≤◌, ◌<◌, max, ◌≡◌, refl, ap, sym, ◌∙◌, String, Option, none, some, Bool, true,
  false, List, [], ◌∷◌, ◌++◌, Assoc, lookup, insert, adjust, remove, if◌then◌else◌, leb, ltb, ◌==◌,
  length, has, count, str_eq, eq_iff, arith, trim,
}
use agentic_application_fram.Runtime.Graph.{keys_of, contains_key}

abbrev pub default_capacity : ℕ
default_capacity = 4096

-- `key_for`, over the hexadecimal SHA-256 and the lower case of a text.
unfoldable pub key_for : (String → String) → (String → String) → String → String → String → String
key_for sha256_hex to_lowercase goal domain intent_type = sha256_hex (
    str_append intent_type
      (str_append "|" (str_append domain (str_append "|" (to_lowercase (trim goal))))))

pub record CacheInner (P : Type 0) : Type 0 where
  pub map : Assoc P
  pub order : List String
  pub capacity : ℕ  -- usize

module _ {P : Type 0} where
  abbrev pub with_capacity : ℕ → CacheInner P
  with_capacity n = record { map = []; order = []; capacity = n }

  abbrev pub new : CacheInner P
  new = with_capacity default_capacity

  abbrev pub get : String → CacheInner P → Option P
  get key c = lookup key c.map

  abbrev pub len : CacheInner P → ℕ
  len c = length c.map

  abbrev pub is_empty : CacheInner P → Bool
  is_empty c = len c == 0

  -- The loop that evicts the oldest entries.
  unfoldable pub evict : List String → CacheInner P → CacheInner P
  evict [] c = record c { order = [] }
  evict (oldest ∷ order) c =
      let next = evict order (record c { map = remove oldest c.map }) in
      if leb c.capacity (length c.map) then next else record c { order = oldest ∷ order }

  unfoldable pub store : String → P → CacheInner P → CacheInner P
  store key plan c = record c { order = c.order ++ key ∷ []; map = insert key plan c.map }

  unfoldable pub put : String → P → CacheInner P → CacheInner P
  unfolding evict store
  put key plan c =
      if contains_key key c.map
      then record c { map = adjust key (λ slot. plan) c.map }
      else store key plan (evict c.order c)
