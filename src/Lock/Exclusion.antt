-- ===== src/Lock/Exclusion.antt =====
-- The lock excludes: one writer and no reader, or readers only.
use riiver_rolex.Base.{
  ℕ, zero, suc, ◌+◌, ◌-◌, ◌*◌, ◌^◌, ◌≤◌, ◌<◌, ◌≡◌, refl, ◌∙◌, ◌⊎◌, inr, arith, length, set,
  replicate, length-set, length-replicate,
}
use riiver_rolex.Lock.{
  Pc, idle, w_spin, w_cas, try_w_load, try_w_cas, writing, w_unlock, r_spin, try_r_load, reading,
  r_unlock, r_cas, try_r_cas, r_unlock_cas, access, Call, call_w, call_try_w, call_r, call_try_r,
  call_w_unlock, call_r_unlock, System, Step, run, call, Reachable, start, step,
}
use riiver_rolex.Lock.Count.{
  writes, reads, IsSound, total, AllSound, total-set, AllSound-set, AllSound-get, total-reads,
  total-get,
}

abbrev pub writers : System → ℕ
writers s = total writes s.threads

abbrev pub readers : System → ℕ
readers s = total reads s.threads

-- What the word says: one writer, or twice the number of readers.
abbrev Says : ℕ → ℕ → ℕ → Type 0
Says l w r = (l ≡ 1) × (w ≡ 1) × (r ≡ 0) ⊎ (l ≡ 2 * r) × (w ≡ 0)

record IsLock (n : ℕ) (s : System) : Type 0 where
  size : length s.threads ≡ n
  says : Says s.l (writers s) (readers s)
  sound : AllSound s.threads

-- What one access does to the word and to the thread's part in the counts.
access-Says :
    (pc : Pc) (l w r : ℕ)
    → Says l w r
    → writes pc ≤ w
    → reads pc ≤ r
    → r < 2 ^ 15 - 1
    → IsSound pc
    → Says
        (access pc l).1
        (w + writes (access pc l).0 - writes pc)
        (r + reads (access pc l).0 - reads pc)
      × IsSound (access pc l).0
unfolding access
access-Says idle l w r h a b c s = ground arith
access-Says writing l w r h a b c s = ground arith
access-Says reading l w r h a b c s = ground arith
access-Says w_spin l w r h a b c s = ground arith
access-Says w_cas l w r h a b c s = ground arith
access-Says try_w_load l w r h a b c s = ground arith
access-Says try_w_cas l w r h a b c s = ground arith
access-Says w_unlock l w r h a b c s = ground arith
access-Says r_spin l w r h a b c s = ground arith
access-Says (r_cas v) l w r h a b c s = ground arith
access-Says try_r_load l w r h a b c s = ground arith
access-Says (try_r_cas v) l w r h a b c s = ground arith
access-Says r_unlock l w r h a b c s = ground arith
access-Says (r_unlock_cas v) l w r h a b c s = ground arith

Call-Says :
    {pc pc' : Pc} → Call pc pc' → (writes pc' ≡ writes pc) × (reads pc' ≡ reads pc) × IsSound pc'
Call-Says call_w = (refl, refl, tt)
Call-Says call_try_w = (refl, refl, tt)
Call-Says call_r = (refl, refl, tt)
Call-Says call_try_r = (refl, refl, tt)
Call-Says call_w_unlock = (refl, refl, tt)
Call-Says call_r_unlock = (refl, refl, tt)

module _ (n : ℕ) (few : n < 2 ^ 15 - 1) where
  start-IsLock :
      (m : ℕ)
      → (total writes (replicate m idle) ≡ 0)
        × (total reads (replicate m idle) ≡ 0)
        × AllSound (replicate m idle)
  start-IsLock zero = (refl, refl, tt)
  start-IsLock (suc m) = let (a, b, c) = start-IsLock m in (omega arith, omega arith, (tt, c))

  Step-IsLock : (s s' : System) → IsLock n s → Step s s' → IsLock n s'
  Step-IsLock s s' h (run i pc at) =
      let w = total-get writes s.threads i pc at in
      let r = total-get reads s.threads i pc at in
      let most = total-reads s.threads in
      let size = h.size in
      let (says, sound) =
        access-Says pc s.l (writers s) (readers s) h.says w r (omega arith)
          (AllSound-get s.threads i pc h.sound at) in
      let tw = total-set writes s.threads i pc (access pc s.l).0 at in
      let tr = total-set reads s.threads i pc (access pc s.l).0 at in
      let ew : writers s + writes (access pc s.l).0 - writes pc
          ≡ total writes (set s.threads i (access pc s.l).0) =
        omega arith in
      let er : readers s + reads (access pc s.l).0 - reads pc
          ≡ total reads (set s.threads i (access pc s.l).0) =
        omega arith in
      record {
        size = length-set s.threads i _ ∙ h.size;
        says = rw (ew, er) at says;
        sound = AllSound-set s.threads i _ h.sound sound;
      }
  Step-IsLock s s' h (call i pc pc' at c) =
      let (a, b, sound) = Call-Says c in
      let tw = total-set writes s.threads i pc pc' at in
      let tr = total-set reads s.threads i pc pc' at in
      let ew : total writes (set s.threads i pc') ≡ writers s = omega arith in
      let er : total reads (set s.threads i pc') ≡ readers s = omega arith in
      record {
        size = length-set s.threads i pc' ∙ h.size;
        says = rw (ew, er) h.says;
        sound = AllSound-set s.threads i pc' h.sound sound;
      }

  Reachable-IsLock : (s : System) → Reachable n s → IsLock n s
  Reachable-IsLock s start =
      let (a, b, c) = start-IsLock n in
      record { size = length-replicate n idle; says = inr (omega arith, a); sound = c }
  Reachable-IsLock s (step {s = before} r t) = Step-IsLock before s (Reachable-IsLock before r) t

  -- With fewer than 2 ^ 15 - 1 threads, in every state that the threads reach from an unlocked word
  -- either the word is locked, one thread writes and none reads, or no thread writes and the word is
  -- twice the number of readers.
  pub exclusion :
      (s : System)
      → Reachable n s
      → (s.l ≡ 1) × (writers s ≡ 1) × (readers s ≡ 0) ⊎ (s.l ≡ 2 * readers s) × (writers s ≡ 0)
  exclusion s r = (Reachable-IsLock s r).says
