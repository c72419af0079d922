-- ===== src/Lock/Tests.antt =====
-- Two threads: the first takes the lock to write, while the second has loaded the word.
use riiver_rolex.Base.{some, get_elem?, ◌*◌, ◌≡◌, refl, ◌⊎◌, [], ◌∷◌, arith}
use riiver_rolex.Lock.{
  idle, reading, w_spin, w_cas, writing, r_spin, r_cas, access, call_w, call_r, System, run, call,
  Reachable, start, step,
}
use riiver_rolex.Lock.Release.{Run, waits_r}
use riiver_rolex.Lock.Progress.{progress}
use riiver_rolex.Lock.Exclusion.{writers, readers, exclusion}

abbrev taken : System
taken = record { l = 1; threads = writing ∷ r_cas 0 ∷ [] }

reached : Reachable 2 taken
unfolding access
reached =
    step
      (step
        (step (step (step start (call 0 idle w_spin refl call_w)) (call 1 idle r_spin refl call_r))
          (run 0 w_spin refl))
        (run 1 r_spin refl))
      (run 0 w_cas refl)

exclusion_example :
    (taken.l ≡ 1) × (writers taken ≡ 1) × (readers taken ≡ 0)
    ⊎ (taken.l ≡ 2 * readers taken) × (writers taken ≡ 0)
exclusion_example = exclusion 2 (omega arith) taken reached

-- The first thread writes, and the second spins in rLock.
abbrev waited : System
waited = record { l = 1; threads = writing ∷ r_spin ∷ [] }

waited_reached : Reachable 2 waited
unfolding access
waited_reached =
    step
      (step (step (step start (call 0 idle w_spin refl call_w)) (call 1 idle r_spin refl call_r))
        (run 0 w_spin refl))
      (run 0 w_cas refl)

progress_example : (s' : System) × Run waited s' × (get_elem? s'.threads 1 ≡ some reading)
progress_example = progress 2 (omega arith) waited waited_reached 1 r_spin reading waits_r refl
