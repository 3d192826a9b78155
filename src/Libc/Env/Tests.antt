-- ===== src/Libc/Env/Tests.antt =====
-- Runs of the environment, and what getenv-setenv says of one.
use rhombus.Prelude.{◌≡◌, refl, false, none, some, [], ◌∷◌}
use rhombus.Prelude.Int.{is_zero}
use rhombus.Libc.Text.{Text, strcmp}
use rhombus.Libc.Env.{
  var, deleted, null_end, text_end, no_array, Environ, text, behind_block, getenv, setenv,
}
use rhombus.Libc.Env.Map.{getenv-setenv}

abbrev home : Text
home = b'H' ∷ b'O' ∷ []

abbrev pwd : Text
pwd = b'P' ∷ b'W' ∷ []

abbrev one_var : Environ
one_var = record { vars = var home (b'/' ∷ []) ∷ []; end = null_end }

-- A variable that is deleted leaves an entry that getenv of the empty name reads behind.
deleted_entry : setenv home none one_var ≡ some (0, record { vars = deleted ∷ []; end = null_end })
unfolding setenv strcmp
deleted_entry = refl

empty_name : getenv [] (record { vars = deleted ∷ []; end = null_end }) ≡ behind_block
unfolding getenv strcmp
empty_name = refl

-- Deleting a variable that is not there overwrites the end of the array.
end_lost :
    setenv pwd none one_var ≡ some (0, record { vars = var home (b'/' ∷ []) ∷ []; end = text_end })
unfolding setenv strcmp
end_lost = refl

no_environ : setenv pwd none (record { vars = []; end = no_array }) ≡ none
unfolding setenv
no_environ = refl

told_apart : is_zero (strcmp pwd home) ≡ false
unfolding strcmp
told_apart = refl

getenv-setenv_example :
    (e' : Environ) × (setenv pwd (some home) one_var ≡ some (0, e'))
    × (getenv pwd e' ≡ text home)
    × (getenv home e' ≡ getenv home one_var)
getenv-setenv_example = getenv-setenv pwd home home one_var (refl, (refl, tt)) told_apart
