-- ===== src/Lock/Release.antt =====
-- What one thread does while the others rest: a holder gives the lock back.
use mathlib.Core.Path.{subst}
use mathlib.Core.Option.{some-injective}
use riiver_rolex.Base.{
  ℕ, zero, suc, ◌+◌, ◌-◌, ◌%◌, ◌^◌, ◌≡◌, refl, sym, ap, ◌≢◌, inl, inr, some, List, [], ◌∷◌, ◌==◌,
  Bool-cases, get_elem?, set, ==_iff,
}
use riiver_rolex.Lock.Count.{writes, reads}
use riiver_rolex.Lock.{
  try_w_load, try_w_cas, try_r_load, try_r_cas, Pc, idle, w_spin, w_cas, writing, w_unlock, r_spin,
  reading, r_unlock, r_cas, r_unlock_cas, access, Call, call_w_unlock, call_r_unlock, System, Step,
  run, call,
}

-- Steps one after the other.
pub data Run (s : System) : System → Type 0 where
  rest : Run s s
  then_step : {s' s'' : System} → Run s s' → Step s' s'' → Run s s''

pub Run-append : {s s' s'' : System} → Run s s' → Run s' s'' → Run s s''
Run-append a rest = a
Run-append a (then_step b t) = then_step (Run-append a b) t

-- The steps of one thread alone.
pub data Solo (pc' : Pc) (l' : ℕ) : Pc → ℕ → Type 0 where
  solo_end : Solo pc' l' pc' l'
  solo_run : {pc : Pc} {l : ℕ} → Solo pc' l' (access pc l).0 (access pc l).1 → Solo pc' l' pc l
  solo_call : {pc pc1 : Pc} {l : ℕ} → Call pc pc1 → Solo pc' l' pc1 l → Solo pc' l' pc l

set-set : (ps : List Pc) (i : ℕ) (p q : Pc) → set (set ps i p) i q ≡ set ps i q
set-set [] i p q = refl
set-set (x ∷ ps) zero p q = refl
set-set (x ∷ ps) (suc i) p q = ap (λ t. x ∷ t) (set-set ps i p q)

set_same : (ps : List Pc) (i : ℕ) (p : Pc) → get_elem? ps i ≡ some p → set ps i p ≡ ps
set_same [] i p e = refl
set_same (x ∷ ps) zero p e = ap (λ t. t ∷ ps) (sym (some-injective x p e))
set_same (x ∷ ps) (suc i) p e = ap (λ t. x ∷ t) (set_same ps i p e)

pub at_set :
    (ps : List Pc) (i : ℕ) (p q : Pc) → get_elem? ps i ≡ some p → get_elem? (set ps i q) i ≡ some q
at_set [] i p q e = absurd (cc e)
at_set (x ∷ ps) zero p q e = refl
at_set (x ∷ ps) (suc i) p q e = at_set ps i p q e

-- One thread's steps are steps of the system.
pub Solo-Run :
    {pc' : Pc} {l' : ℕ} (ps : List Pc) (i : ℕ) (pc : Pc) (l : ℕ)
    → get_elem? ps i ≡ some pc
    → Solo pc' l' pc l
    → Run (record { l = l; threads = ps }) (record { l = l'; threads = set ps i pc' })
Solo-Run ps i pc l e solo_end =
    subst (λ t. Run (record { l = l; threads = ps }) (record { l = l; threads = t }))
      (sym (set_same ps i pc e)) rest
Solo-Run {pc'} {l'} ps i pc l e (solo_run t) =
    let pc1 = (access pc l).0 in
    let l1 = (access pc l).1 in
    Run-append (then_step rest (run i pc e)) (
      subst (λ t. Run (record { l = l1; threads = set ps i pc1 }) (record { l = l'; threads = t }))
        (set-set ps i pc1 pc') (Solo-Run (set ps i pc1) i pc1 l1 (at_set ps i pc pc1 e) t))
Solo-Run {pc'} {l'} ps i pc l e (solo_call {pc1} c t) =
    Run-append (then_step rest (call i pc pc1 e c)) (
      subst (λ t. Run (record { l = l; threads = set ps i pc1 }) (record { l = l'; threads = t }))
        (set-set ps i pc1 pc') (Solo-Run (set ps i pc1) i pc1 l (at_set ps i pc pc1 e) t))

-- One access with a known outcome.
Solo-access :
    {pc' : Pc} {l' : ℕ} (pc : Pc) (l : ℕ) (pc1 : Pc) (l1 : ℕ)
    → access pc l ≡ (pc1, l1)
    → Solo pc' l' pc1 l1
    → Solo pc' l' pc l
Solo-access {pc'} {l'} pc l pc1 l1 e t = solo_run (subst (λ x. Solo pc' l' x.0 x.1) (sym e) t)

-- rUnlock, from its load on.
r_unlock-Solo : (l : ℕ) → Solo idle ((l + 2 ^ 16 - 2) % 2 ^ 16) r_unlock l
unfolding access
r_unlock-Solo l = Solo-access r_unlock l (r_unlock_cas l) l refl (
    Solo-access (r_unlock_cas l) l idle ((l + 2 ^ 16 - 2) % 2 ^ 16) (rw ((==_iff l l).1 refl) refl)
      solo_end)

-- A thread that holds the lock gives it back alone.
pub release : (pc : Pc) (l : ℕ) → writes pc + reads pc ≢ 0 → (l' : ℕ) × Solo idle l' pc l
unfolding access
release writing l h = (0, solo_call call_w_unlock (Solo-access w_unlock l idle 0 refl solo_end))
release w_unlock l h = (0, Solo-access w_unlock l idle 0 refl solo_end)
release reading l h = ((l + 2 ^ 16 - 2) % 2 ^ 16, solo_call call_r_unlock (r_unlock-Solo l))
release r_unlock l h = ((l + 2 ^ 16 - 2) % 2 ^ 16, r_unlock-Solo l)
release (r_unlock_cas v) l h = elim (Bool-cases (l == v)) [
  | inl e ↦ (
    (v + 2 ^ 16 - 2) % 2 ^ 16,
    Solo-access (r_unlock_cas v) l idle ((v + 2 ^ 16 - 2) % 2 ^ 16) (rw e refl) solo_end,
  )
  | inr e ↦ (
    (l + 2 ^ 16 - 2) % 2 ^ 16,
    Solo-access (r_unlock_cas v) l r_unlock l (rw e refl) (r_unlock-Solo l),
  )
]
release idle l h = absurd (h refl)
release w_spin l h = absurd (h refl)
release w_cas l h = absurd (h refl)
release try_w_load l h = absurd (h refl)
release try_w_cas l h = absurd (h refl)
release r_spin l h = absurd (h refl)
release try_r_load l h = absurd (h refl)
release (r_cas v) l h = absurd (h refl)
release (try_r_cas v) l h = absurd (h refl)

-- A thread that waits for the lock, and what it waits for.
pub data Waits : Pc → Pc → Type 0 where
  waits_w : Waits w_spin writing
  waits_r : Waits r_spin reading

-- It gets the lock where the word is unlocked.
pub enter : {pc pc' : Pc} → Waits pc pc' → (l' : ℕ) × Solo pc' l' pc 0
unfolding access
enter waits_w = (1, Solo-access w_spin 0 w_cas 0 refl (Solo-access w_cas 0 writing 1 refl solo_end))
enter waits_r =
    (2, Solo-access r_spin 0 (r_cas 0) 0 refl (Solo-access (r_cas 0) 0 reading 2 refl solo_end))

pub waiting_free : {pc pc' : Pc} → Waits pc pc' → writes pc + reads pc ≡ 0
waiting_free waits_w = refl
waiting_free waits_r = refl
