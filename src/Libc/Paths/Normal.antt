-- ===== src/Libc/Paths/Normal.antt =====
-- path_simplify of libc/path/path_simplify.c, from the first byte of a path on.
use rhombus.Prelude.{ℕ, ◌≡◌, ◌⊎◌, none, some, List, ◌++◌, All}
use rhombus.Libc.Text.{Text}
use rhombus.Libc.Paths.{joined, path_simplify}
use rhombus.Libc.Paths.Names.{IsName}
use rhombus.Libc.Paths.Prefix.{IsPrefix}

-- A simplified path, and that it stays as it is.
abbrev pub Simple : ℕ → Text → Text → Type 0
Simple fuel pwd path =
    (path_simplify fuel pwd path ≡ some none)
    ⊎ ((prefix : Text) × (ns : List Text) × IsPrefix prefix
        × All IsName ns
        × (path_simplify fuel pwd path ≡ some (some (prefix ++ joined ns)))
        × (path_simplify 1 pwd (prefix ++ joined ns) ≡ some (some (prefix ++ joined ns))))
