-- ===== src/Libc/Env/Map.antt =====
-- The environment as a map: getenv after setenv, libc/stdlib/env.c.
use rhombus.Prelude.{
  ℕ, ◌≡◌, ◌⊎◌, inl, inr, refl, ap, sym, ◌∙◌, true, false, none, some, List, [], ◌∷◌, ◌++◌, ◌==◌,
  arith, All, Bool-cases, ==_iff,
}
use rhombus.Prelude.Int.{is_zero}
use rhombus.Libc.Text.{Text, strcmp, char_lt}
use rhombus.Libc.Env.{
  Var, var, null_end, Environ, name_of, is_named, null, text, value_of, get_var, getenv,
  cut_at_equals, new_var, put_var, setenv,
}

strcmp_self : (s : Text) → is_zero (strcmp s s) ≡ true
unfolding strcmp
strcmp_self [] = refl
strcmp_self (c ∷ s) = let e : (c == c) ≡ true = ground arith in rw e (strcmp_self s)

strcmp_on : (a b : ℕ) (s t : Text) → (a == b) ≡ true → strcmp (a ∷ s) (b ∷ t) ≡ strcmp s t
unfolding strcmp
strcmp_on a b s t e = rw e refl

strcmp_apart : (a b : ℕ) (s t : Text) → (a == b) ≡ false → is_zero (strcmp (a ∷ s) (b ∷ t)) ≡ false
unfolding strcmp
strcmp_apart a b s t e = elim (Bool-cases (char_lt a b)) [
  | inl h ↦ rw (e, h) refl
  | inr h ↦ rw (e, h) refl
]

strcmp_equal : (s t : Text) → is_zero (strcmp s t) ≡ true → s ≡ t
unfolding strcmp
strcmp_equal [] [] h = refl
strcmp_equal [] (b ∷ t) h = absurd (ground arith)
strcmp_equal (a ∷ s) [] h = absurd (ground arith)
strcmp_equal (a ∷ s) (b ∷ t) h = elim (Bool-cases (a == b)) [
  | inl e ↦
      let rest = strcmp_equal s t (ap is_zero (sym (strcmp_on a b s t e)) ∙ h) in
      ap (λ c. c ∷ s) ((==_iff a b).0 e) ∙ ap (λ l. b ∷ l) rest
  | inr e ↦ let clash : true ≡ false = sym h ∙ strcmp_apart a b s t e in absurd (ground arith)
]

cut_lem :
    (name value : Text)
    → All (λ c. (c == b'=') ≡ false) name
    → cut_at_equals (name ++ (b'=' ∷ value)) ≡ (name, value)
unfolding cut_at_equals
cut_lem [] value h = refl
cut_lem (c ∷ name) value h = rw h.0 (ap (λ p. (c ∷ p.0, p.1)) (cut_lem name value h.1))

new_var_lem :
    (name value : Text) → All (λ c. (c == b'=') ≡ false) name → new_var name value ≡ var name value
unfolding new_var
new_var_lem name value h = ap (λ p. var p.0 p.1) (cut_lem name value h)

get_here :
    (name : Text) (v : Var) (vs : List Var)
    → is_named v name ≡ true
    → get_var name (v ∷ vs) ≡ value_of v
unfolding get_var
get_here name v vs e = rw e refl

get_later :
    (name : Text) (v : Var) (vs : List Var)
    → is_named v name ≡ false
    → get_var name (v ∷ vs) ≡ get_var name vs
unfolding get_var
get_later name v vs e = rw e refl

get_end : (name : Text) → get_var name [] ≡ null
unfolding get_var
get_end name = refl

put_here :
    (name : Text) (new v : Var) (vs : List Var)
    → is_named v name ≡ true
    → put_var name new (v ∷ vs) ≡ some (new ∷ vs)
unfolding put_var
put_here name new v vs e = rw e refl

put_later :
    (name : Text) (new v : Var) (vs : List Var)
    → is_named v name ≡ false
    → put_var name new (v ∷ vs)
      ≡ elim (put_var name new vs) [ none ↦ none | some vs' ↦ some (v ∷ vs') ]
unfolding put_var
put_later name new v vs e = rw e refl

-- Variables where `name` has been put: its value is that of the new one, and another name is as before.
pub record Put (name other : Text) (new : Var) (vs vs' : List Var) : Type 0 where
  pub there : get_var name vs' ≡ value_of new
  pub elsewhere : get_var other vs' ≡ get_var other vs

put_end : (name : Text) (new : Var) → put_var name new [] ≡ none
unfolding put_var
put_end name new = refl

Put-behind :
    (name other : Text) (new v : Var) (vs vs' : List Var)
    → is_named v name ≡ false
    → Put name other new vs vs'
    → Put name other new (v ∷ vs) (v ∷ vs')
Put-behind name other new v vs vs' e p = record {
  there = get_later name v vs' e ∙ p.there;
  elsewhere = elim (Bool-cases (is_named v other)) [
    | inl f ↦ get_here other v vs' f ∙ sym (get_here other v vs f)
    | inr f ↦ get_later other v vs' f ∙ (p.elsewhere ∙ sym (get_later other v vs f))
  ];
}

put_var-Put :
    (name other : Text) (new : Var) (vs : List Var)
    → is_named new name ≡ true
    → is_named new other ≡ false
    → ((v : Var) → is_named v name ≡ true → is_named v other ≡ false)
    → ((vs' : List Var) × (put_var name new vs ≡ some vs') × Put name other new vs vs')
      ⊎ ((put_var name new vs ≡ none) × Put name other new vs (vs ++ (new ∷ [])))
put_var-Put name other new [] a b c = inr (
  put_end name new,
  record { there = get_here name new [] a; elsewhere = get_later other new [] b },
)
put_var-Put name other new (v ∷ vs) a b c = elim (Bool-cases (is_named v name)) [
  | inl e ↦ inl (
    new ∷ vs,
    put_here name new v vs e,
    record {
      there = get_here name new vs a;
      elsewhere = get_later other new vs b ∙ sym (get_later other v vs (c v e));
    },
  )
  | inr e ↦ elim (put_var-Put name other new vs a b c) [
    | inl (vs', f, p) ↦ inl (
      v ∷ vs',
      put_later name new v vs e ∙ ap (λ o. elim o [ none ↦ none | some vs' ↦ some (v ∷ vs') ]) f,
      Put-behind name other new v vs vs' e p,
    )
    | inr (f, p) ↦ inr (
      put_later name new v vs e ∙ ap (λ o. elim o [ none ↦ none | some vs' ↦ some (v ∷ vs') ]) f,
      Put-behind name other new v vs (vs ++ (new ∷ [])) e p,
    )
  ]
]

-- A name is that of one variable only.
named_apart :
    (name other : Text) (v : Var)
    → is_zero (strcmp name other) ≡ false
    → is_named v name ≡ true
    → is_named v other ≡ false
unfolding is_named
named_apart name other v h e =
    ap (λ n. is_zero (strcmp n other)) (strcmp_equal (name_of v) name e) ∙ h

named_self : (name value : Text) → is_named (var name value) name ≡ true
unfolding is_named
named_self name value = strcmp_self name

-- setenv with a value succeeds.
setenv_found :
    (name value : Text) (e : Environ) (vs' : List Var)
    → put_var name (new_var name value) e.vars ≡ some vs'
    → setenv name (some value) e ≡ some (0, record e { vars = vs' })
unfolding setenv
setenv_found name value e vs' f = rw (setenv, f) refl

setenv_appended :
    (name value : Text) (e : Environ)
    → put_var name (new_var name value) e.vars ≡ none
    → setenv name (some value) e
      ≡ some (0, record { vars = e.vars ++ (new_var name value ∷ []); end = null_end })
unfolding setenv
setenv_appended name value e f = rw (setenv, f) refl

-- setenv of a name without `=` and a value returns 0. Then getenv of that name returns the value, and getenv of
-- a name that strcmp tells from it returns what it returned before.
pub getenv-setenv :
    (name value other : Text) (e : Environ)
    → All (λ c. (c == b'=') ≡ false) name
    → is_zero (strcmp name other) ≡ false
    → (e' : Environ) × (setenv name (some value) e ≡ some (0, e'))
      × (getenv name e' ≡ text value)
      × (getenv other e' ≡ getenv other e)
unfolding getenv
getenv-setenv name value other e h k =
    let made = new_var_lem name value h in
    let named : is_named (new_var name value) name ≡ true =
      ap (λ v. is_named v name) made ∙ named_self name value in
    let there : value_of (new_var name value) ≡ text value = ap value_of made in
    elim (put_var-Put name other (new_var name value) e.vars named
      (named_apart name other (new_var name value) k named) (λ v. named_apart name other v k)) [
        | inl (vs', f, p) ↦
            (record e { vars = vs' }, setenv_found name value e vs' f, p.there ∙ there, p.elsewhere)
        | inr (f, p) ↦ (
          record { vars = e.vars ++ (new_var name value ∷ []); end = null_end },
          setenv_appended name value e f,
          p.there ∙ there,
          p.elsewhere,
        )
      ]
