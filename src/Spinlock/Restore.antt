-- ===== src/Spinlock/Restore.antt =====
-- What the lock does to the interrupt flag.
use cllm.Common.{
  ◌≡◌, refl, Bool, true, false, List, [], ◌∷◌, ◌≢◌, ◌==◌, Bool-cases, inl, inr, eq→==, ne→==,
}
use cllm.Spinlock.{
  Machine, spinlock_trylock, spin_once, spinlock_lock, spinlock_unlock, spinlock_is_locked,
}

-- On a free lock `spinlock_trylock` succeeds, the lock is held with interrupts disabled, and
-- `spinlock_unlock` frees it and puts the interrupt flag back as it was.
spinlock_unlock-spinlock_trylock :
    (m : Machine)
    → m.locked ≡ 0
    → let r = spinlock_trylock m in
      (r.0 ≡ true)
      × (spinlock_is_locked r.1 ≡ true)
      × (r.1.flag ≡ false)
      × (spinlock_is_locked (spinlock_unlock r.1) ≡ false)
      × ((spinlock_unlock r.1).flag ≡ m.flag)
unfolding spinlock_trylock spinlock_unlock spinlock_is_locked
spinlock_unlock-spinlock_trylock m h = rw (eq→== m.locked 0 h) (go m.flag)
  where
    go :
        (b : Bool)
        → (true ≡ true)
          × (true ≡ true)
          × (false ≡ false)
          × (spinlock_is_locked
                (spinlock_unlock (record { locked = 1; interrupts_were_enabled = b; flag = false }))
              ≡ false)
          × ((spinlock_unlock
                (record { locked = 1; interrupts_were_enabled = b; flag = false })).flag
              ≡ b)
    go true = (refl, refl, refl, refl, refl)
    go false = (refl, refl, refl, refl, refl)

-- Interrupts that are off stay off.
kept_off :
    (l : List (Machine → Machine)) (m : Machine)
    → m.flag ≡ false
    → (spinlock_lock l m).0 ≡ true
    → (spinlock_unlock (spinlock_lock l m).1).flag ≡ false
unfolding spinlock_lock spinlock_unlock
kept_off [] m f h = elim (Bool-cases (m.locked == 0)) [
  | inl e ↦ rw (e, f) refl
  | inr e ↦ let no : false ≡ true = (rw e at h) in cc
]
kept_off (handler ∷ l) m f h = elim (Bool-cases (m.locked == 0)) [
  | inl e ↦ rw (e, f) refl
  | inr e ↦
      let again : (spinlock_lock l (spin_once handler (record m { locked = 1 }))).0 ≡ true =
        (rw e at h) in
      rw e (kept_off l (spin_once handler (record m { locked = 1 })) refl again)
]

-- A caller of `spinlock_lock` that has to wait even once finds interrupts disabled after
-- `spinlock_unlock`, whatever the handlers did in the meantime and though interrupts may have been
-- enabled before the call.
pub spinlock_unlock_waited :
    (l : List (Machine → Machine)) (m : Machine)
    → m.locked ≢ 0
    → (spinlock_lock l m).0 ≡ true
    → (spinlock_unlock (spinlock_lock l m).1).flag ≡ false
unfolding spinlock_lock
spinlock_unlock_waited [] m n h = let no : false ≡ true = (rw (ne→== m.locked 0 n) at h) in cc
spinlock_unlock_waited (handler ∷ l) m n h =
    let e = ne→== m.locked 0 n in
    let again : (spinlock_lock l (spin_once handler (record m { locked = 1 }))).0 ≡ true =
      (rw e at h) in
    rw e (kept_off l (spin_once handler (record m { locked = 1 })) refl again)
