-- ===== src/Libc/Mqueue.antt =====
-- The message queues of a process, libc/ipc/mqueue.c. The doubly linked list of a port is the list
-- of its messages, from `front` to `back`; `none` is a call that spins on a held mutex for ever.
pub mod Pull
mod Tests
use rhombus.Prelude.{
  ℕ, zero, suc, ◌%◌, Bool, true, false, not, ◌||◌, Option, none, some, List, [], ◌∷◌, ◌++◌, ◌==◌,
  if◌then◌else◌,
}

-- `struct msg`, by what the queues read, and a number for the rest.
pub record Msg : Type 0 where
  pub port : ℕ
  pub source : ℕ
  pub body : ℕ

-- `mqueue_policy`, and `mqueue` with its mutexes.
pub record Mqueue : Type 0 where
  pub policy : ℕ → Bool
  pub mutex : ℕ → Bool
  pub queue : ℕ → List Msg

-- An assignment to one element of an array.
abbrev pub assign {ℓ} : {A : Type ℓ} → (ℕ → A) → ℕ → A → ℕ → A
assign f i v j = if j == i then v else f j

-- A port is a `uint8_t`.
abbrev pub port_of : ℕ → ℕ
port_of n = n % 256

-- `mqueue_set_policy`
pub mqueue_set_policy : Mqueue → ℕ → Bool → Mqueue
mqueue_set_policy s port do_queue = record s {
  policy = assign s.policy (port_of port) (not do_queue);
}

-- `mqueue_push`, where `memory` says whether malloc gives a node: the result, and the new state. A
-- call without memory leaves the mutex held.
pub mqueue_push : Bool → Mqueue → Option Msg → Option (ℕ × Mqueue)
mqueue_push memory s none = some (1, s)
mqueue_push memory s (some msg) =
    let port = port_of msg.port in
    if s.policy port
    then some (0, s)
    else if s.mutex port
    then none
    else if memory
    then some (0, record s { queue = assign s.queue port (s.queue port ++ (msg ∷ [])) })
    else some (1, record s { mutex = assign s.mutex port true })

-- `source` is zero, or the source of the message.
abbrev pub matches : ℕ → Msg → Bool
matches source msg = (source == 0) || (msg.source == source)

abbrev pub behind : Msg → Option (Msg × List Msg) → Option (Msg × List Msg)
behind msg none = none
behind msg (some (found, rest)) = some (found, msg ∷ rest)

-- The search of `mqueue_pull`, and the queue without the node that it finds.
pub pick : ℕ → List Msg → Option (Msg × List Msg)
pick source [] = none
pick source (msg ∷ msgs) =
    let later = behind msg (pick source msgs) in
    if matches source msg then some (msg, msgs) else later

abbrev pub pulled : Mqueue → ℕ → Option (Msg × List Msg) → Option Msg × Mqueue
pulled s port none = (none, s)
pulled s port (some (msg, rest)) = (some msg, record s { queue = assign s.queue port rest })

-- `mqueue_pull`
pub mqueue_pull : Mqueue → ℕ → ℕ → Option (Option Msg × Mqueue)
unfolding pick
mqueue_pull s port source =
    if s.mutex (port_of port)
    then none
    else some (pulled s (port_of port) (pick source (s.queue (port_of port))))
