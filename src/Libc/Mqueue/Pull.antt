-- ===== src/Libc/Mqueue/Pull.antt =====
-- What mqueue_push and mqueue_pull of libc/ipc/mqueue.c do to the queue of a port.
use rhombus.Prelude.{
  ℕ, ◌≡◌, ◌⊎◌, refl, ap, Bool, true, false, none, some, List, [], ◌∷◌, ◌++◌, inl, inr, arith, ◌==◌,
  Bool-cases, All,
}
use rhombus.Libc.Mqueue.{Msg, Mqueue, assign, port_of, mqueue_push, matches, pick, mqueue_pull}

-- `msg` is the first message of `msgs` from the source, and `rest` are the others, in their order.
pub record Picked (source : ℕ) (msgs : List Msg) (msg : Msg) (rest : List Msg) : Type 0 where
  pub before : List Msg
  pub after : List Msg
  pub whole : msgs ≡ before ++ (msg ∷ after)
  pub others : rest ≡ before ++ after
  pub right : matches source msg ≡ true
  pub first : All (λ m. matches source m ≡ false) before

-- The two ends of the search.
pick-Picked :
    (source : ℕ) (msgs : List Msg)
    → ((pick source msgs ≡ none) × All (λ m. matches source m ≡ false) msgs)
      ⊎ ((msg : Msg) × (rest : List Msg) × (pick source msgs ≡ some (msg, rest))
          × Picked source msgs msg rest)
unfolding pick
pick-Picked source [] = inl (refl, tt)
pick-Picked source (m ∷ ms) = elim (Bool-cases (matches source m)) [
  | inl hit ↦ inr (
    m,
    ms,
    rw hit refl,
    record { before = []; after = ms; whole = refl; others = refl; right = hit; first = tt },
  )
  | inr miss ↦ elim (pick-Picked source ms) [
    | inl (e, none_match) ↦ inl (rw (miss, e) refl, (miss, none_match))
    | inr (found, rest, e, p) ↦ inr (
      found,
      m ∷ rest,
      rw (miss, e) refl,
      record {
        before = m ∷ p.before;
        after = p.after;
        whole = ap (λ l. m ∷ l) p.whole;
        others = ap (λ l. m ∷ l) p.others;
        right = p.right;
        first = (miss, p.first);
      },
    )
  ]
]

-- mqueue_pull of a port whose mutex is free gives the first message of the port from the source, or
-- from any where that is zero, and takes only that message out of the queue; where there is none,
-- it gives null and changes nothing.
pub mqueue_pull-Picked :
    (s : Mqueue) (port source : ℕ)
    → s.mutex (port_of port) ≡ false
    → ((mqueue_pull s port source ≡ some (none, s))
        × All (λ m. matches source m ≡ false) (s.queue (port_of port)))
      ⊎ ((msg : Msg) × (rest : List Msg) × (mqueue_pull s port source
            ≡ some (some msg, record s { queue = assign s.queue (port_of port) rest }))
          × Picked source (s.queue (port_of port)) msg rest)
unfolding mqueue_pull
mqueue_pull-Picked s port source open_mutex = elim (pick-Picked source (s.queue (port_of port))) [
  | inl (e, k) ↦ inl (rw (open_mutex, e) refl, k)
  | inr (msg, rest, e, p) ↦ inr (msg, rest, rw (open_mutex, e) refl, p)
]

-- mqueue_push of a message to a port that queues, when malloc fails: it reports the error, but no
-- later push to that port or pull from it returns.
pub mqueue_push-stuck :
    (s : Mqueue) (msg later : Msg) (memory : Bool) (source : ℕ)
    → s.policy (port_of msg.port) ≡ false
    → s.mutex (port_of msg.port) ≡ false
    → port_of later.port ≡ port_of msg.port
    → (s' : Mqueue) × (mqueue_push false s (some msg) ≡ some (1, s'))
      × (mqueue_push memory s' (some later) ≡ none)
      × (mqueue_pull s' msg.port source ≡ none)
unfolding mqueue_push mqueue_pull
mqueue_push-stuck s msg later memory source p f e =
    let self : (port_of msg.port == port_of msg.port) ≡ true = ground arith in
    (
      record s { mutex = assign s.mutex (port_of msg.port) true },
      rw (p, f) refl,
      rw (e, p, self) refl,
      rw self refl,
    )
