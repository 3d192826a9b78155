-- ===== src/Libc/Contab.antt =====
-- The table of connections, libc/rhombus/contab.c. What the other side of a connection answers is a
-- parameter; realloc gives memory. The mutex is held through the access to the table.
pub mod Counts
pub mod Loops
pub mod Undo
mod Tests
use rhombus.Prelude.{
  ℕ, zero, suc, ◌+◌, ◌-◌, ◌*◌, ◌/◌, ◌%◌, ◌^◌, Bool, true, false, ◌&&◌, ◌||◌, Option, none, some,
  List, [], ◌∷◌, ◌++◌, ◌==◌, ltb, leb, if◌then◌else◌, replicate,
}
use rhombus.Libc.Fdtab.{rp_null}

-- `struct contab`, its integers as words of 32 bits
pub record Con : Type 0 where
  pub status_count : List ℕ
  pub refc : ℕ
  pub rp : ℕ

-- `x > 0` of an int
abbrev pub is_above_zero : ℕ → Bool
is_above_zero x = ltb 0 x && ltb x (2 ^ 31)

-- The loop that increments the counts of the bits of a status.
pub raise : ℕ → List ℕ → List ℕ
raise status [] = []
raise status (c ∷ cs) = (if status % 2 == 1 then (c + 1) % 2 ^ 32 else c) ∷ raise (status / 2) cs

-- The loop that decrements them.
pub lower : ℕ → List ℕ → List ℕ
lower status [] = []
lower status (c ∷ cs) =
    (if status % 2 == 1 then (c + 2 ^ 32 - 1) % 2 ^ 32 else c) ∷ lower (status / 2) cs

-- The loop that reads the status from its counts.
pub status_of : List ℕ → ℕ
status_of [] = 0
status_of (c ∷ cs) = (if is_above_zero c then 1 else 0) + 2 * status_of cs

-- An empty entry that is converted.
pub converted : ℕ → Con → Con
converted rp c = record { status_count = replicate 32 0; refc = 0; rp = rp }

-- The entry that the loop looks at, converted where it is empty.
pub used : ℕ → Con → Con
unfolding converted
used rp c = if c.rp == rp_null then converted rp c else c

-- The counts of an entry, for one more connection.
pub counted : ℕ → Con → Con
unfolding raise
counted status c = record c {
  status_count = raise status c.status_count;
  refc = (c.refc + 1) % 2 ^ 32;
}

-- The loop of `_contab_add`, with the table; none if it finds no entry.
pub add_loop : ℕ → ℕ → List Con → Option (List Con)
unfolding used counted
add_loop rp status [] = none
add_loop rp status (c ∷ t) =
    let rest = add_loop rp status t in
    let c' = used rp c in
    if c'.rp == rp
    then some (counted status c' ∷ t)
    else elim rest [ none ↦ none | some t' ↦ some (c' ∷ t') ]

-- The entries that realloc adds; what their other fields hold is a parameter.
pub new_entry : Con → Con
new_entry junk = record junk { rp = rp_null }

-- The first of them.
pub first_entry : ℕ → ℕ → Con
unfolding raise
first_entry rp status = record { status_count = raise status (replicate 32 0); refc = 1; rp = rp }

-- The table of `_contab_add` when it connects.
pub entered : Con → ℕ → ℕ → List Con → List Con
unfolding add_loop new_entry first_entry
entered junk rp status t = elim (add_loop rp status t) [
  | some t' ↦ t'
  | none ↦ t ++ (first_entry rp status ∷ replicate 15 (new_entry junk))
]

-- An entry with one connection less.
pub discounted : ℕ → Con → Con
unfolding lower
discounted status c =
    let refc' = (c.refc + 2 ^ 32 - 1) % 2 ^ 32 in
    record {
      status_count = lower status c.status_count;
      refc = refc';
      rp = if is_above_zero refc' then c.rp else rp_null;
    }

-- The loop of `_contab_del`.
pub del_loop : ℕ → ℕ → List Con → Option (List Con)
unfolding discounted
del_loop rp status [] = none
del_loop rp status (c ∷ t) =
    let rest = del_loop rp status t in
    if c.rp == rp
    then some (discounted status c ∷ t)
    else elim rest [ none ↦ none | some t' ↦ some (c ∷ t') ]

-- `_contab_get`
pub contab_get : ℕ → List Con → ℕ
unfolding status_of
contab_get rp [] = 0
contab_get rp (c ∷ t) =
    let rest = contab_get rp t in if c.rp == rp then status_of c.status_count else rest

-- `_contab_del`. `refused` says of `_rp_connect` whether it fails; then the function calls itself, with
-- `fuel` as the bound.
pub contab_del : ℕ → (ℕ → ℕ → Bool) → ℕ → ℕ → List Con → Option (ℕ × List Con)
unfolding del_loop contab_get
contab_del zero refused rp status t = none
contab_del (suc fuel) refused rp status t =
    if status == 0 then some (0, t) else elim (del_loop rp status t) [
      | none ↦ some (1, t)
      | some t' ↦ elim (refused rp (contab_get rp t')) [
        | false ↦ some (0, t')
        | true ↦ elim (contab_del fuel refused rp status t') [
          | none ↦ none
          | some (err, t'') ↦ some (1, t'')
        ]
      ]
    ]

-- `_contab_add`
pub contab_add : ℕ → (ℕ → ℕ → Bool) → Con → ℕ → ℕ → List Con → Option (ℕ × List Con)
unfolding entered contab_del contab_get
contab_add fuel refused junk rp status t =
    if status == 0
    then some (0, t)
    else (let t' = entered junk rp status t in
        elim (refused rp (contab_get rp t')) [
          | false ↦ some (0, t')
          | true ↦ elim (contab_del fuel refused rp status t') [
            | none ↦ none
            | some (err, t'') ↦ some (1, t'')
          ]
        ])

-- `status | STAT_OPEN`
abbrev pub with_open : ℕ → ℕ
with_open status = if status % 2 == 1 then status else status + 1

-- `rp_getstat`
pub rp_getstat : ℕ → List Con → ℕ
unfolding contab_get
rp_getstat rp t = contab_get rp t

-- `rp_setstat`
pub rp_setstat : ℕ → (ℕ → ℕ → Bool) → Con → ℕ → ℕ → List Con → Option (ℕ × List Con)
unfolding contab_add
rp_setstat fuel refused junk rp status t = contab_add fuel refused junk rp (with_open status) t

-- `rp_clrstat`
pub rp_clrstat : ℕ → (ℕ → ℕ → Bool) → ℕ → ℕ → List Con → Option (ℕ × List Con)
unfolding contab_del
rp_clrstat fuel refused rp status t = contab_del fuel refused rp (with_open status) t
