-- ===== src/Libc/Text/Tests.antt =====
-- The functions on texts on concrete texts.
use rhombus.Prelude.{
  ℕ, ◌+◌, ◌≤◌, ◌<◌, ◌-◌, ◌≡◌, ◌⊎◌, refl, true, none, some, List, [], ◌∷◌, ◌++◌, arith, length, take,
  drop, not,
}
use rhombus.Prelude.Int.{pos, negsuc}
use rhombus.Libc.Text.{
  Text, strlen, byte_at, char_lt, strcmp, strrchr, find_back, strstr, is_accepted,
}
use rhombus.Libc.Text.Compare.{Before, strcmp-Before}
use rhombus.Libc.Text.Search.{BeginsWith, Occurs, strstr-Occurs}
use rhombus.Libc.Text.Span.{strspn, strcspn}
use rhombus.Libc.Text.Span.Mask.{span_len, strspn-span_len}
use rhombus.Libc.Text.Token.{delimp, strtok_r, count_args, strparse}
use rhombus.Libc.Text.Token.Cut.{Word, strtok_r-Word}
use rhombus.Libc.Text.Token.Parse.{strparse-fits}
use rhombus.Libc.Text.Buffer.{Array, strlcat}
use rhombus.Libc.Text.Buffer.Bounded.{text, strlcat-text}

-- "a,b,c" and ","
abbrev list_of_three : Text
list_of_three = b'a' ∷ b',' ∷ b'b' ∷ b',' ∷ b',' ∷ b'c' ∷ []

abbrev comma : Text
comma = b',' ∷ []

abbrev room : Array
room = b'x' ∷ b'y' ∷ 0 ∷ 1 ∷ 2 ∷ 3 ∷ []

-- A byte from 128 on is before every other.
strcmp_signed : strcmp (200 ∷ []) comma ≡ negsuc 0
unfolding strcmp char_lt
strcmp_signed = refl

strrchr_runs : strrchr list_of_three b',' ≡ some 4
unfolding strrchr find_back strlen byte_at
strrchr_runs = refl

strcmp-Before_example :
    ((strcmp comma list_of_three ≡ pos 0) × (comma ≡ list_of_three))
    ⊎ (((strcmp comma list_of_three ≡ negsuc 0) × Before comma list_of_three)
        ⊎ ((strcmp comma list_of_three ≡ pos 1) × Before list_of_three comma))
strcmp-Before_example = strcmp-Before comma list_of_three (omega arith) (omega arith)

strstr-Occurs_example :
    ((strstr list_of_three comma ≡ none)
      × ((j : ℕ) → j < strlen list_of_three → ¬ BeginsWith (drop j list_of_three) comma))
    ⊎ ((i : ℕ) × (strstr list_of_three comma ≡ some (drop i list_of_three))
        × Occurs list_of_three comma i)
strstr-Occurs_example = strstr-Occurs list_of_three comma

strspn-span_len_example :
    (strspn list_of_three comma ≡ some (span_len (λ c. is_accepted c comma) list_of_three))
    × (strcspn list_of_three comma ≡ some (span_len (λ c. not (is_accepted c comma)) list_of_three))
strspn-span_len_example = strspn-span_len list_of_three comma (omega arith) (omega arith)

strparse-fits_example :
    (ts : List Text) × (strparse list_of_three comma ≡ some ts)
    × (length ts ≤ count_args comma list_of_three)
strparse-fits_example = strparse-fits list_of_three comma (omega arith) (omega arith)

room-text : text room ≡ some (b'x' ∷ b'y' ∷ [])
unfolding text
room-text = refl

strlen_two : strlen (b'x' ∷ b'y' ∷ []) < 5
unfolding strlen
strlen_two = omega arith

strtok_r-Word_example :
    (lead : Text) × (word : Text) × (((strtok_r (some list_of_three) comma none
          ≡ (some list_of_three, none))
        × Word comma list_of_three lead word)
      ⊎ ((d : ℕ) × (rest : Text) × (strtok_r (some list_of_three) comma none
            ≡ (some (lead ++ word), some rest))
          × (list_of_three ≡ (lead ++ word) ++ (d ∷ rest))
          × (delimp d comma ≡ true)
          × Word comma (lead ++ word) lead word))
strtok_r-Word_example = strtok_r-Word comma list_of_three none

strlcat-text_example :
    (d' : Array) × (strlcat room list_of_three 5
      ≡ some (d', strlen (b'x' ∷ b'y' ∷ []) + strlen list_of_three))
    × (text d'
        ≡ some ((b'x' ∷ b'y' ∷ []) ++ take (5 - 1 - strlen (b'x' ∷ b'y' ∷ [])) list_of_three))
    × (drop 5 d' ≡ drop 5 room)
strlcat-text_example =
    strlcat-text room list_of_three (b'x' ∷ b'y' ∷ []) 5 room-text strlen_two (omega arith)
      (omega arith)
