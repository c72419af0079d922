-- ===== src/Lock.antt =====
-- include/WRLock.h: a readers-writer lock on one 16-bit word, with several threads that each take one
-- atomic access at a time.
pub mod Count
pub mod Exclusion
pub mod Progress
pub mod Release
mod Tests
use riiver_rolex.Base.{
  ℕ, zero, suc, ◌+◌, ◌-◌, ◌*◌, ◌/◌, ◌%◌, ◌^◌, ◌≤◌, ◌<◌, min, max, ◌≡◌, refl, sym, ap, ◌∙◌, ◌≢◌, ◌↔◌,
  ◌⊎◌, inl, inr, Bool, true, false, not, ◌&&◌, ◌||◌, Option, none, some, List, [], ◌∷◌, ◌++◌, map,
  arith, ltb, leb, ◌==◌, if◌then◌else◌, Bool-cases, Option-cases, length, get_elem?, set, get_or,
  take, drop, replicate, length-append, length-set, length-take, length-drop, length-replicate,
  length-map, ==_iff, dec_lt, ℕ_discrete, get_elem?-set_self, get_elem?-set_ne, take-append-drop,
  ltb→lt, lt→ltb,
}

-- `UNLOCKED` and `LOCKED`
abbrev pub unlocked : ℕ
unlocked = 0

abbrev pub locked : ℕ
locked = 1

-- Where a thread stands: outside, between two atomic accesses of a method, or holding the lock.
pub data Pc : Type 0 where
  idle w_spin w_cas try_w_load try_w_cas writing w_unlock r_spin try_r_load reading r_unlock : Pc
  -- with the value `v` that was loaded
  r_cas try_r_cas r_unlock_cas : ℕ → Pc

-- `compare_exchange_strong(expected, desired)`, and where the thread goes on success and on failure
abbrev pub cas : ℕ → ℕ → ℕ → Pc → Pc → Pc × ℕ
cas l expected desired good bad = if l == expected then (good, desired) else (bad, l)

-- The next atomic access of a thread to the word.
unfoldable pub access : Pc → ℕ → Pc × ℕ
access idle l = (idle, l)
access writing l = (writing, l)
access reading l = (reading, l)
access w_spin l = (if l == unlocked then w_cas else w_spin, l)
access w_cas l = cas l unlocked locked writing w_spin
access try_w_load l = (if l == unlocked then try_w_cas else idle, l)
access try_w_cas l = cas l unlocked locked writing idle
access w_unlock l = (idle, unlocked)
access r_spin l = (if l == locked then r_spin else r_cas l, l)
access (r_cas v) l = cas l v ((v + 2) % 2 ^ 16) reading r_spin
access try_r_load l = (if l == locked then idle else try_r_cas l, l)
access (try_r_cas v) l = cas l v ((v + 2) % 2 ^ 16) reading try_r_load
access r_unlock l = (r_unlock_cas l, l)
access (r_unlock_cas v) l = cas l v ((v + 2 ^ 16 - 2) % 2 ^ 16) idle r_unlock

-- The calls of `wLock`, `try_wLock`, `rLock`, `try_rLock`, `wUnlock` and `rUnlock`; the last two by a
-- thread that holds the lock.
pub data Call : Pc → Pc → Type 0 where
  call_w : Call idle w_spin
  call_try_w : Call idle try_w_load
  call_r : Call idle r_spin
  call_try_r : Call idle try_r_load
  call_w_unlock : Call writing w_unlock
  call_r_unlock : Call reading r_unlock

pub record System : Type 0 where
  pub l : ℕ
  pub threads : List Pc

pub data Step (s : System) : System → Type 0 where
  run :
      (i : ℕ) (pc : Pc)
      → get_elem? s.threads i ≡ some pc
      → Step s (record { l = (access pc s.l).1; threads = set s.threads i (access pc s.l).0 })
  call :
      (i : ℕ) (pc pc' : Pc)
      → get_elem? s.threads i ≡ some pc
      → Call pc pc'
      → Step s (record s { threads = set s.threads i pc' })

-- The lock was initialised, and all threads are outside.
abbrev pub initial : ℕ → System
initial n = record { l = unlocked; threads = replicate n idle }

pub data Reachable (n : ℕ) : System → Type 0 where
  start : Reachable n (initial n)
  step : {s s' : System} → Reachable n s → Step s s' → Reachable n s'
