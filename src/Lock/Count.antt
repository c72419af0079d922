-- ===== src/Lock/Count.antt =====
-- How many threads hold the lock.
use mathlib.Core.Option.{some-injective}
use mathlib.Core.Path.{subst}
use riiver_rolex.Base.{
  ℕ, zero, suc, ◌+◌, ◌≤◌, ◌≡◌, ap, ◌≢◌, some, List, [], ◌∷◌, arith, length, get_elem?, set,
}
use riiver_rolex.Lock.{
  Pc, idle, w_spin, w_cas, try_w_load, try_w_cas, writing, w_unlock, r_spin, try_r_load, reading,
  r_unlock, r_cas, try_r_cas, r_unlock_cas,
}

abbrev pub writes : Pc → ℕ
writes writing = 1
writes w_unlock = 1
writes _ = 0

abbrev pub reads : Pc → ℕ
reads reading = 1
reads r_unlock = 1
reads (r_unlock_cas v) = 1
reads _ = 0

-- A value that was loaded to enter as a reader is not that of a locked word.
abbrev pub IsSound : Pc → Type 0
IsSound (r_cas v) = v ≢ 1
IsSound (try_r_cas v) = v ≢ 1
IsSound _ = Unit

abbrev pub total : (Pc → ℕ) → List Pc → ℕ
total f [] = 0
total f (p ∷ ps) = f p + total f ps

abbrev pub AllSound : List Pc → Type 0
AllSound [] = Unit
AllSound (p ∷ ps) = IsSound p × AllSound ps

pub total-set :
    (f : Pc → ℕ) (ps : List Pc) (i : ℕ) (p q : Pc)
    → get_elem? ps i ≡ some p
    → total f (set ps i q) + f p ≡ total f ps + f q
total-set f [] i p q e = absurd (cc e)
total-set f (x ∷ ps) zero p q e = let z : f x ≡ f p = ap f (some-injective x p e) in omega arith
total-set f (x ∷ ps) (suc i) p q e = omega (arith, total-set f ps i p q e)

pub AllSound-set : (ps : List Pc) (i : ℕ) (q : Pc) → AllSound ps → IsSound q → AllSound (set ps i q)
AllSound-set [] i q h s = tt
AllSound-set (x ∷ ps) zero q h s = (s, h.1)
AllSound-set (x ∷ ps) (suc i) q h s = (h.0, AllSound-set ps i q h.1 s)

pub AllSound-get :
    (ps : List Pc) (i : ℕ) (p : Pc) → AllSound ps → get_elem? ps i ≡ some p → IsSound p
AllSound-get [] i p h e = absurd (cc e)
AllSound-get (x ∷ ps) zero p h e = subst IsSound (some-injective x p e) h.0
AllSound-get (x ∷ ps) (suc i) p h e = AllSound-get ps i p h.1 e

one-reads : (p : Pc) → reads p ≤ 1
one-reads reading = omega arith
one-reads r_unlock = omega arith
one-reads (r_unlock_cas v) = omega arith
one-reads idle = omega arith
one-reads w_spin = omega arith
one-reads w_cas = omega arith
one-reads try_w_load = omega arith
one-reads try_w_cas = omega arith
one-reads writing = omega arith
one-reads w_unlock = omega arith
one-reads r_spin = omega arith
one-reads try_r_load = omega arith
one-reads (r_cas v) = omega arith
one-reads (try_r_cas v) = omega arith

pub total-reads : (ps : List Pc) → total reads ps ≤ length ps
total-reads [] = omega arith
total-reads (p ∷ ps) = omega (arith, total-reads ps, one-reads p)

-- A thread that holds the lock is counted.
pub total-get :
    (f : Pc → ℕ) (ps : List Pc) (i : ℕ) (p : Pc) → get_elem? ps i ≡ some p → f p ≤ total f ps
total-get f [] i p e = absurd (cc e)
total-get f (x ∷ ps) zero p e = let z : f x ≡ f p = ap f (some-injective x p e) in omega arith
total-get f (x ∷ ps) (suc i) p e = omega (arith, total-get f ps i p e)
