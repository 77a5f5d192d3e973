-- ===== src/Spinlock.antt =====
-- src/spinlock.c and src/interrupts.c: the lock, and the interrupt flag of the one processor.
-- The exchange and the instructions on the flag are what their comments say; null pointers are not
-- modelled.
use cllm.Common.{ℕ, ◌≡◌, refl, Bool, true, false, not, ◌==◌, if◌then◌else◌, List, [], ◌∷◌}
pub mod Restore
pub mod Tests

-- `spinlock_t`, and the flag.
pub record Machine : Type 0 where
  pub locked : ℕ
  pub interrupts_were_enabled : Bool
  pub flag : Bool

pub spinlock_init : Machine → Machine
spinlock_init m = record m { locked = 0; interrupts_were_enabled = false }

pub interrupts_disable_save : Machine → Bool × Machine
interrupts_disable_save m = (m.flag, record m { flag = false })

pub interrupts_restore : Bool → Machine → Machine
interrupts_restore enabled m = if enabled then record m { flag = true } else m

pub spinlock_trylock : Machine → Bool × Machine
unfolding interrupts_disable_save
spinlock_trylock m =
    let exchanged = record m { locked = 1 } in
    let (was, disabled) = interrupts_disable_save exchanged in
    if m.locked == 0
    then (true, record disabled { interrupts_were_enabled = was })
    else (false, exchanged)

-- The body of the loop in `spinlock_lock`: while interrupts are enabled, `handler` runs.
pub spin_once : (Machine → Machine) → Machine → Machine
spin_once handler m = record (handler (record m { flag = true })) { flag = false }

-- `spinlock_lock` where the lock is obtained after the handlers of a list have run in the loop, one in
-- each round.
pub spinlock_lock : List (Machine → Machine) → Machine → Bool × Machine
unfolding spinlock_trylock spin_once
spinlock_lock [] m = spinlock_trylock m
spinlock_lock (handler ∷ l) m =
    let (got, n) = spinlock_trylock m in
    let later = spinlock_lock l (spin_once handler n) in if got then (true, n) else later

pub spinlock_unlock : Machine → Machine
unfolding interrupts_restore
spinlock_unlock m = interrupts_restore m.interrupts_were_enabled (record m { locked = 0 })

pub spinlock_is_locked : Machine → Bool
spinlock_is_locked m = not (m.locked == 0)
