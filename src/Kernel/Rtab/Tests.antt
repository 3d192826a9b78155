-- ===== src/Kernel/Rtab/Tests.antt =====
-- Runs of the resource table, and the theorems at concrete tables.
use mathlib.Core.List.{Perm}
use rhombus.Prelude.{◌≡◌, refl, some, [], ◌∷◌, arith}
use rhombus.Kernel.Rtab.{Table, entry, blank, close, open_fuel, free}
use rhombus.Kernel.Rtab.Live.{Opened, live, open-Opened}
use rhombus.Kernel.Rtab.Close.{close-live, close-open}
use rhombus.Kernel.Rtab.Free.{notice, free-notice}

abbrev three : Table
three = entry 1 10 ∷ blank ∷ entry 2 20 ∷ []

close_second :
    close three 2 20 ≡ (entry 1 10 ∷ blank ∷ blank ∷ [], record { target = 20; source = 2 } ∷ [])
unfolding close
close_second = refl

free_three :
    (free three).1 ≡ record { target = 10; source = 1 } ∷ record { target = 20; source = 2 } ∷ []
unfolding free
free_three = refl

open-Opened_example : (t' : Table) × (open_fuel 2 three 3 30 ≡ some t') × Opened three 3 30 t'
open-Opened_example = open-Opened 3 30 (λ h. absurd (omega (arith, h))) three

close-live_example : Perm (live three) (entry 2 20 ∷ live (close three 2 20).0)
close-live_example =
    close-live three 2 20 (omega arith) (ground arith, (ground arith, (λ h. refl, tt))) refl

close-open_example :
    (t' : Table) × (open_fuel 2 three 3 30 ≡ some t') × Perm (live (close t' 3 30).0) (live three)
close-open_example = close-open three 3 30 (omega arith) (omega arith) refl

free-notice_example : free three ≡ ([], notice (entry 1 10) ∷ notice (entry 2 20) ∷ [])
free-notice_example = free-notice three
