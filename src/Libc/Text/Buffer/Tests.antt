-- ===== src/Libc/Text/Buffer/Tests.antt =====
-- strlcat on a concrete array.
use rhombus.Prelude.{◌≡◌, refl, some, [], ◌∷◌}
use rhombus.Libc.Text.{Text, strlen}
use rhombus.Libc.Text.Buffer.{Array, strlcat, append_bounded, push_counted}

abbrev list_of_three : Text
list_of_three = b'a' ∷ b',' ∷ b'b' ∷ b',' ∷ b',' ∷ b'c' ∷ []

abbrev room : Array
room = b'x' ∷ b'y' ∷ 0 ∷ 1 ∷ 2 ∷ 3 ∷ []

strlcat_runs : strlcat room list_of_three 5 ≡ some (b'x' ∷ b'y' ∷ b'a' ∷ b',' ∷ 0 ∷ 3 ∷ [], 8)
unfolding strlcat append_bounded push_counted strlen
strlcat_runs = refl
