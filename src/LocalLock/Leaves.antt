-- ===== src/LocalLock/Leaves.antt =====
-- The functions that leave the shared result of the readers alone.
use riiver_rolex.Base.{ℕ, ◌≡◌, refl, inl, inr, some, Option-cases}
use riiver_rolex.LocalLock.{WaitingQueue, LocalLockNode, announce}

-- The fields that sharing is about, left alone, but for a key that is announced.
pub record Leaves (n n' : LocalLockNode) : Type 0 where
  pub key : (k : ℕ) → n.read.unique_key ≡ some k → n'.read.unique_key ≡ some k
  pub handover : n'.read.handover ≡ n.read.handover
  pub res : n'.res ≡ n.res
  pub ret_value : n'.ret_value ≡ n.ret_value

pub Leaves-refl : (n : LocalLockNode) → Leaves n n
Leaves-refl n = record { key = λ k e. e; handover = refl; res = refl; ret_value = refl }

pub write-Leaves : (n : LocalLockNode) (q : WaitingQueue) → Leaves n (record n { write = q })
write-Leaves n q = record { key = λ k e. e; handover = refl; res = refl; ret_value = refl }

pub announce-Leaves :
    (k : ℕ) (n : LocalLockNode) → Leaves n (record n { read = (announce k n.read).1 })
unfolding announce
announce-Leaves k n = elim (Option-cases n.read.unique_key) [
  | inl e ↦ rw e (record { key = λ j e'. cc; handover = refl; res = refl; ret_value = refl })
  | inr (j, e) ↦ rw e (record { key = λ j e'. e'; handover = refl; res = refl; ret_value = refl })
]
