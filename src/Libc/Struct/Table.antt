-- ===== src/Libc/Struct/Table.antt =====
-- The string-keyed hash table of libc/struct/table.c. A key is the list of its bytes, without the
-- terminator. A slot whose `string` is null is the empty chain; otherwise the slot holds the head
-- of its chain in place. `strdup` and `malloc` do not fail: the code does not check them.
pub mod Chain
pub mod Slots
pub mod Inv
pub mod Merge
pub mod Resize
pub mod Map
pub mod Number
mod Tests
use rhombus.Prelude.{
  ℕ, zero, suc, ◌+◌, ◌-◌, ◌*◌, ◌/◌, ◌%◌, ◌^◌, Bool, true, false, ◌&&◌, Option, none, some, List, [],
  ◌∷◌, ◌++◌, ◌==◌, ltb, if◌then◌else◌, get_or, set,
}

abbrev pub Key : Type 0
Key = List ℕ

-- `!strcmp(s, t)`
abbrev pub str_eq : Key → Key → Bool
str_eq [] [] = true
str_eq [] (y ∷ t) = false
str_eq (x ∷ s) [] = false
str_eq (x ∷ s) (y ∷ t) = (x == y) && str_eq s t

-- The loop of `_hash`, on `uint32_t`.
pub hash_from : ℕ → Key → ℕ
hash_from h [] = h
hash_from h (c ∷ s) = hash_from ((h * 2 ^ 16 + h * 2 ^ 6 + 2 ^ 32 - h + c) % 2 ^ 32) s

-- `_hash`
pub hash : Key → ℕ
unfolding hash_from
hash s = hash_from 0 s

-- `struct s_table_entry`; a chain is the list that `next` makes.
pub record Entry {ℓ} (D : Type ℓ) : Type ℓ where
  pub code : ℕ
  pub key : Key
  pub value : D

-- `struct s_table`: `2 ^ size` slots, and `load`, the number of slots in use.
pub record Table {ℓ} (D : Type ℓ) : Type ℓ where
  pub size : ℕ
  pub load : ℕ
  pub slots : List (List (Entry D))

-- `hash & ((1 << size) - 1)`
abbrev pub index : ℕ → ℕ → ℕ
index size h = h % 2 ^ size

module _ {ℓ} {D : Type ℓ} where
  abbrev pub entry : Key → D → Entry D
  entry k v = record { code = hash k; key = k; value = v }

  -- `entry->hash == hash && !strcmp(entry->string, field)`
  abbrev pub matches : Entry D → Key → Bool
  matches e k = (e.code == hash k) && str_eq e.key k

  abbrev pub empty_slots : ℕ → List (List (Entry D))
  empty_slots zero = []
  empty_slots (suc n) = [] ∷ empty_slots n

  -- `_cons`
  pub cons : ℕ → Table D
  cons size = record { size = size; load = 0; slots = empty_slots (2 ^ size) }

  abbrev pub chain_at : Table D → ℕ → List (Entry D)
  chain_at t h = get_or t.slots (index t.size h) []

  -- `load++` where the slot was empty.
  abbrev pub grown_load : List (Entry D) → ℕ → ℕ
  grown_load [] n = n + 1
  grown_load (e ∷ c) n = n

  -- `load--` where the last entry of the slot went.
  abbrev pub shrunk_load : List (Entry D) → List (Entry D) → ℕ → ℕ
  shrunk_load (e ∷ c) [] n = n - 1
  shrunk_load (e ∷ c) (e' ∷ c') n = n
  shrunk_load [] c' n = n

  -- `_add`: at the end of the chain, with no look at the keys.
  pub add : Table D → Entry D → Table D
  add t e = record t {
    load = grown_load (chain_at t e.code) t.load;
    slots = set t.slots (index t.size e.code) (chain_at t e.code ++ (e ∷ []));
  }

  -- The walk of `_set` along a chain: the first match gets the value, else a new entry follows.
  pub chain_set : List (Entry D) → Key → D → List (Entry D)
  chain_set [] k v = entry k v ∷ []
  chain_set (e ∷ c) k v = if matches e k then record e { value = v } ∷ c else e ∷ chain_set c k v

  -- `_set`
  pub put : Table D → Key → D → Table D
  unfolding chain_set
  put t k v = record t {
    load = grown_load (chain_at t (hash k)) t.load;
    slots = set t.slots (index t.size (hash k)) (chain_set (chain_at t (hash k)) k v);
  }

  -- The walk of `_del`: the first match goes.
  pub chain_del : List (Entry D) → Key → List (Entry D)
  chain_del [] k = []
  chain_del (e ∷ c) k = if matches e k then c else e ∷ chain_del c k

  -- `_del`
  pub del : Table D → Key → Table D
  unfolding chain_del
  del t k =
      let c = chain_at t (hash k) in
      let c' = chain_del c k in
      record t { load = shrunk_load c c' t.load; slots = set t.slots (index t.size (hash k)) c' }

  -- The walk of `_get`.
  pub chain_get : List (Entry D) → Key → Option D
  chain_get [] k = none
  chain_get (e ∷ c) k = if matches e k then some e.value else chain_get c k

  -- `_get`
  pub find : Table D → Key → Option D
  unfolding chain_get
  find t k = chain_get (chain_at t (hash k)) k

  -- The inner and the outer loop of `_resize`.
  pub add_chain : Table D → List (Entry D) → Table D
  unfolding add
  add_chain t [] = t
  add_chain t (e ∷ c) = add_chain (add t e) c

  pub add_slots : Table D → List (List (Entry D)) → Table D
  unfolding add_chain
  add_slots t [] = t
  add_slots t (c ∷ cs) = add_slots (add_chain t c) cs

  -- `_resize`
  pub resize : Table D → ℕ → Table D
  unfolding add_slots cons
  resize t size = add_slots (cons size) t.slots

  -- `s_table_set` on a table and a field that are not null.
  pub update : Table D → Key → Option D → Table D
  unfolding put del resize
  update t k (some v) =
      let t' = put t k v in
      if ltb (3 * 2 ^ t'.size / 4) t'.load then resize t' (t'.size + 1) else t'
  update t k none =
      let t' = del t k in
      if ltb 6 t'.size && ltb t'.load (2 ^ t'.size / 8) then resize t' (t'.size - 1) else t'

  -- `s_table_set`: a null table is made first.
  pub s_table_set : Option (Table D) → Option Key → Option D → Option (Table D)
  unfolding update
  s_table_set t none o = t
  s_table_set none (some k) o = some (update (cons 6) k o)
  s_table_set (some t) (some k) o = some (update t k o)

  -- `s_table_get`
  pub s_table_get : Option (Table D) → Option Key → Option D
  unfolding find
  s_table_get none k = none
  s_table_get (some t) none = none
  s_table_get (some t) (some k) = find t k

  -- `_iter`: the pairs that the callback is given, in order.
  pub iter_chain : List (Entry D) → List (Key × D)
  iter_chain [] = []
  iter_chain (e ∷ c) = (e.key, e.value) ∷ iter_chain c

  pub iter : List (List (Entry D)) → List (Key × D)
  unfolding iter_chain
  iter [] = []
  iter (c ∷ cs) = iter_chain c ++ iter cs
