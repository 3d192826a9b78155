-- ===== src/Libc/Struct/Table/Tests.antt =====
-- Runs of the hash table, and the theorems at concrete tables.
use rhombus.Prelude.{ℕ, ◌+◌, ◌*◌, ◌≡◌, refl, Option, none, some, [], ◌∷◌, if◌then◌else◌}
use rhombus.Libc.Struct.Table.{
  Key, str_eq, hash, Table, cons, put, resize, find, s_table_set, s_table_get,
}
use rhombus.Libc.Struct.Table.Inv.{IsTable, put-IsTable}
use rhombus.Libc.Struct.Table.Resize.{cons-IsTable, resize_lem}
use rhombus.Libc.Struct.Table.Map.{IsMap, s_table_get-set}

abbrev ab : Key
ab = 97 ∷ 98 ∷ []

hash-ab : hash ab ≡ 97 * 65599 + 98
unfolding hash
hash-ab = refl

-- Null, then two keys set, and the first deleted.
stored : Option (Table ℕ)
stored = s_table_set (s_table_set none (some ab) (some 5)) (some (97 ∷ [])) (some 6)

stored-ab : s_table_get stored (some ab) ≡ some 5
unfolding stored s_table_set s_table_get hash
stored-ab = refl

deleted-ab : s_table_get (s_table_set stored (some ab) none) (some ab) ≡ none
unfolding stored s_table_set s_table_get hash
deleted-ab = refl

s_table_get-set_example :
    IsMap (s_table_set {D = ℕ} none (some ab) (some 5))
    × ((j : Key)
        → s_table_get (s_table_set {D = ℕ} none (some ab) (some 5)) (some j)
          ≡ (if str_eq ab j then some 5 else s_table_get {D = ℕ} none (some j)))
s_table_get-set_example = s_table_get-set {D = ℕ} none ab (some 5) tt

two_keys : Table ℕ
two_keys = put (put (cons 6) ab 5) (97 ∷ []) 6

two_keys-IsTable : IsTable two_keys
unfolding two_keys
two_keys-IsTable = put-IsTable (put-IsTable (cons-IsTable 6) ab 5) (97 ∷ []) 6

resize_lem_example :
    IsTable (resize two_keys 7)
    × ((resize two_keys 7).size ≡ 7)
    × ((j : Key) → find (resize two_keys 7) j ≡ find two_keys j)
resize_lem_example = resize_lem 7 two_keys-IsTable
