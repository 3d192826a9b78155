-- ===== src/Libc/Paths/Tests.antt =====
-- Runs of the models of libc/path/, and what path_simplify-Simple says at one path.
use rhombus.Prelude.{◌≡◌, refl, none, some, [], ◌∷◌}
use rhombus.Libc.Text.{Text}
use rhombus.Libc.Paths.{path_cons, path_next, path_peek, path_name, path_parent, path_simplify}

abbrev home : Text
home = b'/' ∷ b'a' ∷ []

abbrev up_and_down : Text
up_and_down = b'b' ∷ b'/' ∷ b'.' ∷ b'.' ∷ b'/' ∷ b'c' ∷ []

simplify_relative_run :
    path_simplify 2 home up_and_down ≡ some (some (b'/' ∷ b'a' ∷ b'/' ∷ b'c' ∷ []))
unfolding path_simplify rhombus.Libc.Text.strcmp rhombus.Libc.Text.strchr
    rhombus.Libc.Text.Span.struntil
simplify_relative_run = refl

simplify_above_root : path_simplify 1 [] (b'/' ∷ b'.' ∷ b'.' ∷ []) ≡ some none
unfolding path_simplify rhombus.Libc.Text.strcmp rhombus.Libc.Text.strchr
    rhombus.Libc.Text.Span.struntil
simplify_above_root = refl

simplify_without_pwd : path_simplify 7 [] (b'@' ∷ b'1' ∷ []) ≡ some (some (b'@' ∷ b'1' ∷ b'/' ∷ []))
unfolding path_simplify rhombus.Libc.Text.strcmp rhombus.Libc.Text.strchr
    rhombus.Libc.Text.Span.struntil
simplify_without_pwd = refl

name_and_parent :
    (path_name up_and_down ≡ b'c' ∷ []) × (path_parent up_and_down ≡ b'b' ∷ b'/' ∷ b'.' ∷ b'.' ∷ [])
unfolding path_name path_parent rhombus.Libc.Text.strrchr rhombus.Libc.Text.find_back
name_and_parent = (refl, refl)

peek_next : (path_peek (path_cons home)).0 ≡ (path_next (path_cons home)).0
unfolding path_peek path_next path_cons
peek_next = refl
