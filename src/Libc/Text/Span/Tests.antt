-- ===== src/Libc/Text/Span/Tests.antt =====
-- strspn and strcspn on concrete texts.
use rhombus.Prelude.{◌≡◌, refl, none, some, [], ◌∷◌}
use rhombus.Libc.Text.{Text}
use rhombus.Libc.Text.Span.{
  strspn, strcspn, mark_all, mark, marked, count_while, tally, cleared_mask, bit, set_bit,
}

abbrev list_of_three : Text
list_of_three = b'a' ∷ b',' ∷ b'b' ∷ b',' ∷ b',' ∷ b'c' ∷ []

abbrev comma : Text
comma = b',' ∷ []

strspn_runs : strcspn list_of_three comma ≡ some 1
unfolding strcspn mark_all mark marked count_while tally cleared_mask bit set_bit
strspn_runs = refl

-- The set has no place for a byte from 128 on.
strspn_outside : strspn (200 ∷ []) comma ≡ none
unfolding strspn mark_all mark marked count_while tally cleared_mask bit set_bit
strspn_outside = refl
