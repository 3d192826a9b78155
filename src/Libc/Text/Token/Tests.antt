-- ===== src/Libc/Text/Token/Tests.antt =====
-- strtok_r and strparse on concrete texts.
use rhombus.Prelude.{◌≡◌, refl, none, some, [], ◌∷◌}
use rhombus.Libc.Text.{Text, strlen}
use rhombus.Libc.Text.Span.{struntil, strspn}
use rhombus.Libc.Text.Token.{
  delimp, leading, next_count, seek, cut, token, strtok_r, parse_loop, strparse,
}

abbrev list_of_three : Text
list_of_three = b'a' ∷ b',' ∷ b'b' ∷ b',' ∷ b',' ∷ b'c' ∷ []

abbrev comma : Text
comma = b',' ∷ []

-- The delimiters before the token stay in it.
strtok_r_keeps_leading :
    strtok_r (some (b',' ∷ b'a' ∷ b',' ∷ b'b' ∷ [])) comma none
    ≡ (some (b',' ∷ b'a' ∷ []), some (b'b' ∷ []))
unfolding strtok_r token cut leading seek delimp next_count
strtok_r_keeps_leading = refl

strparse_runs : strparse list_of_three comma ≡ some ((b'a' ∷ []) ∷ (b'b' ∷ []) ∷ (b'c' ∷ []) ∷ [])
unfolding strparse parse_loop strlen struntil strspn
strparse_runs = refl
