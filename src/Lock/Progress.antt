-- ===== src/Lock/Progress.antt =====
-- The lock never gets stuck: from every reachable state a thread that waits can get it.
use mathlib.Core.Path.{subst}
use mathlib.Core.Option.{some-injective}
use riiver_rolex.Base.{
  ℕ, zero, suc, ◌+◌, ◌-◌, ◌^◌, ◌≤◌, ◌<◌, ◌≡◌, refl, sym, ap, ◌∙◌, ◌≢◌, some, List, [], ◌∷◌, arith,
  get_elem?, set, ℕ_discrete, get_elem?-set_ne,
}
use riiver_rolex.Lock.{Pc, idle, System, Reachable, step}
use riiver_rolex.Lock.Count.{writes, reads, total, total-set}
use riiver_rolex.Lock.Exclusion.{writers, readers, exclusion}
use riiver_rolex.Lock.Release.{
  Run, rest, then_step, Run-append, Solo, Solo-Run, release, at_set, Waits, enter, waiting_free,
}

Run-Reachable : {n : ℕ} {s s' : System} → Reachable n s → Run s s' → Reachable n s'
Run-Reachable r rest = r
Run-Reachable r (then_step a t) = step (Run-Reachable r a) t

find_holder :
    (ps : List Pc)
    → 0 < total writes ps + total reads ps
    → (j : ℕ) × (pc : Pc) × (get_elem? ps j ≡ some pc) × (0 < writes pc + reads pc)
find_holder [] h = absurd (omega arith)
find_holder (p ∷ ps) h = elim (ℕ_discrete (writes p + reads p) 0) [
  | yes z ↦ let (j, pc, e, held) = find_holder ps (omega arith) in (suc j, pc, e, held)
  | no n ↦ (0, p, refl, omega arith)
]

module _ (n : ℕ) (few : n < 2 ^ 15 - 1) (i : ℕ) (pc : Pc) (free : writes pc + reads pc ≡ 0) where
  -- The holders give the lock back, one after the other.
  drain :
      (m : ℕ) (s : System)
      → Reachable n s
      → get_elem? s.threads i ≡ some pc
      → writers s + readers s ≤ m
      → (s' : System) × Run s s' × (s'.l ≡ 0) × (get_elem? s'.threads i ≡ some pc)
  drain zero s r at le = let x = exclusion n few s r in (s, rest, omega arith, at)
  drain (suc m) s r at le = elim (ℕ_discrete (writers s + readers s) 0) [
    | yes z ↦ let x = exclusion n few s r in (s, rest, omega arith, at)
    | no h ↦
        let (j, holder, e, held) = find_holder s.threads (omega arith) in
        let (l', t) = release holder s.l (λ z. omega arith) in
        let freed = set s.threads j idle in
        let apart : j ≢ i = (λ z.
          let same : holder ≡ pc =
            some-injective holder pc (sym e ∙ ap (λ x. get_elem? s.threads x) z ∙ at) in
          let k : writes holder + reads holder ≡ writes pc + reads pc =
            ap (λ p. writes p + reads p) same in
          omega arith) in
        let go = Solo-Run s.threads j holder s.l e t in
        let w = total-set writes s.threads j holder idle e in
        let rd = total-set reads s.threads j holder idle e in
        let (s', tail, zero_word, still) =
          drain m (record { l = l'; threads = freed }) (Run-Reachable r go)
            (get_elem?-set_ne s.threads idle apart ∙ at) (omega arith) in
        (s', Run-append go tail, zero_word, still)
  ]

-- With fewer than 2 ^ 15 - 1 threads, from every state that the threads reach, a thread that spins in
-- wLock or rLock gets the lock by some further steps.
pub progress :
    (n : ℕ)
    → n < 2 ^ 15 - 1
    → (s : System) → Reachable n s
    → (i : ℕ) (pc pc' : Pc) → Waits pc pc'
    → get_elem? s.threads i ≡ some pc
    → (s' : System) × Run s s' × (get_elem? s'.threads i ≡ some pc')
progress n few s r i pc pc' w at =
    let (s1, go, zero_word, still) =
      drain n few i pc (waiting_free w) (writers s + readers s) s r at (omega arith) in
    let (l', t) = enter w in
    let t' : Solo pc' l' pc s1.l = subst (Solo pc' l' pc) (sym zero_word) t in
    (
      record { l = l'; threads = set s1.threads i pc' },
      Run-append go (Solo-Run s1.threads i pc s1.l still t'),
      at_set s1.threads i pc pc' still,
    )
