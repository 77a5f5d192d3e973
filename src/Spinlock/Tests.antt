-- ===== src/Spinlock/Tests.antt =====
-- A lock taken from a context with interrupts enabled.
use cllm.Common.{◌≡◌, refl, true, false, arith, [], ◌∷◌}
use cllm.Spinlock.{Machine, spinlock_lock, spinlock_unlock}
use cllm.Spinlock.Restore.{spinlock_unlock_waited}

abbrev unheld : Machine
unheld = record { locked = 0; interrupts_were_enabled = false; flag = true }

abbrev held : Machine
held = record { locked = 1; interrupts_were_enabled = false; flag = true }

-- The handler that runs while the caller waits frees the lock.
waited : (spinlock_lock ((λ m. record m { locked = 0 }) ∷ []) held).0 ≡ true
unfolding spinlock_lock
waited = refl

spinlock_unlock_waited_example :
    (spinlock_unlock (spinlock_lock ((λ m. record m { locked = 0 }) ∷ []) held).1).flag ≡ false
spinlock_unlock_waited_example =
    spinlock_unlock_waited ((λ m. record m { locked = 0 }) ∷ []) held
      (λ e. absurd (omega (arith, e))) waited
