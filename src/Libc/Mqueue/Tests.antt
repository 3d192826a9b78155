-- ===== src/Libc/Mqueue/Tests.antt =====
-- The message queues with two messages at port 3.
use rhombus.Prelude.{ℕ, ◌≡◌, ◌⊎◌, refl, false, none, some, List, [], ◌∷◌, All}
use rhombus.Libc.Mqueue.{Msg, Mqueue, assign, matches, mqueue_pull}
use rhombus.Libc.Mqueue.Pull.{Picked, mqueue_pull-Picked}

abbrev msg : ℕ → ℕ → Msg
msg source body = record { port = 3; source = source; body = body }

abbrev waiting : List Msg
waiting = msg 7 100 ∷ msg 8 200 ∷ []

abbrev queues : Mqueue
queues = record { policy = λ p. false; mutex = λ p. false; queue = λ p. waiting }

mqueue_pull-Picked_example :
    ((mqueue_pull queues 3 8 ≡ some (none, queues)) × All (λ m. matches 8 m ≡ false) waiting)
    ⊎ ((m : Msg) × (rest : List Msg) × (mqueue_pull queues 3 8
          ≡ some (some m, record queues { queue = assign queues.queue 3 rest }))
        × Picked 8 waiting m rest)
mqueue_pull-Picked_example = mqueue_pull-Picked queues 3 8 refl
