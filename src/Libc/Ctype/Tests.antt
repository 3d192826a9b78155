-- ===== src/Libc/Ctype/Tests.antt =====
-- Runs of the classes of characters, and what classes_lem says of one.
use rhombus.Prelude.{◌≡◌, refl, true, false, not, ◌||◌, arith}
use rhombus.Libc.Ctype.{
  isalnum, isalpha, isdigit, islower, isupper, ispunct, isspace, isxdigit, isgraph, iscntrl,
  isblank, isprint, toupper, tolower,
}
use rhombus.Libc.Ctype.Classes.{classes_lem}

-- Of a letter isgraph is false, and of a space it is true.
graph_of_space : (isgraph b'a' ≡ false) × (isgraph b' ' ≡ true)
unfolding isgraph
graph_of_space = (refl, refl)

-- A line feed is no control character, and can be printed; a space is not blank.
line_feed : (iscntrl 10 ≡ false) × (isprint 10 ≡ true) × (isblank b' ' ≡ false)
unfolding iscntrl isprint isblank
line_feed = (refl, refl, refl)

classes_lem_example :
    (isdigit b'x' ≡ false)
    × (isupper b'x' ≡ false)
    × (islower b'x' ≡ true)
    × (isalpha b'x' ≡ (isupper b'x' || islower b'x'))
    × (isalnum b'x' ≡ (isalpha b'x' || isdigit b'x'))
    × (isxdigit b'x' ≡ (isdigit b'x' || false))
    × (isspace b'x' ≡ false)
    × (ispunct b'x' ≡ not (isalnum b'x'))
    × (isupper (toupper b'x') ≡ isalpha b'x')
    × (tolower (toupper b'x') ≡ tolower b'x')
classes_lem_example = classes_lem b'x' (omega arith)
