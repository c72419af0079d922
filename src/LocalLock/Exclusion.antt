-- ===== src/LocalLock/Exclusion.antt =====
-- Through every step the tickets stay in order, so that one reader and one writer hold the lock.
use riiver_rolex.Base.{ℕ, ◌+◌, ◌%◌, ◌<◌, ◌≡◌, refl, ◌⊎◌, inl, inr, true, some, arith, Bool-cases}
use riiver_rolex.LocalLock.{
  HandoverType, read_handover, write_handover, WaitingQueue, Pc, idle, calls, combines, draws,
  waits, holds, releases, hands, advances, queue, access, Call, acquire, release, update, System,
  Step, run, call, Reachable, start, step,
}
use riiver_rolex.LocalLock.Tickets.{own, has, same, total_idle, InOrder, keep, drawn, left}
use riiver_rolex.LocalLock.Moves.{Moved, access-Moved}

own-cases : (s : HandoverType) (c d : ℕ) (p : Pc) → (own s d p ≡ own s c p) ⊎ (own s c p ≡ some c)
unfolding own
own-cases s c d idle = inl refl
own-cases s c d (calls s' k v) = inl refl
own-cases s c d (combines k v) = inl refl
own-cases s c d (draws s' k) = inl refl
own-cases s c d (waits s' k t) = inl refl
own-cases s c d (holds s' k h) = elim (Bool-cases (same s s')) [
  | inl e ↦ inr (rw e refl)
  | inr e ↦ inl (rw e refl)
]
own-cases s c d (releases s' k r v) = elim (Bool-cases (same s s')) [
  | inl e ↦ inr (rw e refl)
  | inr e ↦ inl (rw e refl)
]
own-cases s c d (hands s' k h) = elim (Bool-cases (same s s')) [
  | inl e ↦ inr (rw e refl)
  | inr e ↦ inl (rw e refl)
]
own-cases s c d (advances s' k) = elim (Bool-cases (same s s')) [
  | inl e ↦ inr (rw e refl)
  | inr e ↦ inl (rw e refl)
]

Moved-InOrder :
    (s : HandoverType) (n : ℕ) (q q' : WaitingQueue) (f : ℕ → Pc) (i : ℕ) (p' : Pc)
    → n < 256
    → i < n
    → Moved s q q' (f i) p'
    → InOrder s n q.current q.ticket f
    → InOrder s n q'.current q'.ticket (update f i p')
Moved-InOrder s n q q' f i p' few lt (inl (e, a, b)) o =
    rw (e.0, e.1) (keep s n q.current q.ticket f few o i lt p' a b)
Moved-InOrder s n q q' f i p' few lt (inr (inl (e, e', a, b, a', b'))) o =
    rw (e, e') (drawn s n q.current q.ticket f few o i lt p' a b a' b')
Moved-InOrder s n q q' f i p' few lt (inr (inr (e, a, b, a', b'))) o =
    rw (e.0, e.1)
      (left s n q.current q.ticket f few o i lt p' a b a' b'
        (λ j. own-cases s q.current ((q.current + 1) % 256) (f j)))

pub Call-keeps :
    (s : HandoverType) (c : ℕ) (p p' : Pc)
    → Call p p'
    → (own s c p' ≡ own s c p) × (has s p' ≡ has s p)
unfolding own has
Call-keeps s c p p' (acquire s' k v) = (refl, refl)
Call-keeps s c p p' (release s' k h r v) = (refl, refl)

initial-InOrder : (s : HandoverType) (n : ℕ) → InOrder s n 0 0 (λ _. idle)
unfolding own
initial-InOrder s n = record {
  low = omega arith;
  handed = rw (total_idle s n);
  range = λ i x q. cc;
  unique = λ i j x q r. cc;
}

abbrev pub Ordered : HandoverType → ℕ → System → Type 0
Ordered s n y = InOrder s n (queue s y.node).current (queue s y.node).ticket y.threads

pub Step-InOrder :
    (s : HandoverType) (n : ℕ) (y z : System) → n < 256 → Step n y z → Ordered s n y → Ordered s n z
Step-InOrder s n y z few (run i is_open lt) o =
    Moved-InOrder s n (queue s y.node) (queue s (access is_open (y.threads i) y.node).1) y.threads i
      (access is_open (y.threads i) y.node).0 few lt (access-Moved is_open s (y.threads i) y.node) o
Step-InOrder s n y z few (call i p lt c) o =
    let (a, b) = Call-keeps s (queue s y.node).current (y.threads i) p c in
    keep s n (queue s y.node).current (queue s y.node).ticket y.threads few o i lt p a b

pub Reachable-InOrder :
    (s : HandoverType) (n : ℕ) (y : System) → n < 256 → Reachable n y → Ordered s n y
Reachable-InOrder read_handover n y few start = initial-InOrder read_handover n
Reachable-InOrder write_handover n y few start = initial-InOrder write_handover n
Reachable-InOrder s n z few (step {s = y} r m) =
    Step-InOrder s n y z few m (Reachable-InOrder s n y few r)

-- A thread between the end of its wait and the end of its release.
abbrev pub Owns : HandoverType → Pc → Type 0
Owns s idle = ⊥
Owns s (calls s' k v) = ⊥
Owns s (combines k v) = ⊥
Owns s (draws s' k) = ⊥
Owns s (waits s' k t) = ⊥
Owns s (holds s' k h) = same s s' ≡ true
Owns s (releases s' k r v) = same s s' ≡ true
Owns s (hands s' k h) = same s s' ≡ true
Owns s (advances s' k) = same s s' ≡ true

pub own-Owns : (s : HandoverType) (c : ℕ) (p : Pc) → Owns s p → own s c p ≡ some c
unfolding own
own-Owns s c idle h = absurd h
own-Owns s c (calls s' k v) h = absurd h
own-Owns s c (combines k v) h = absurd h
own-Owns s c (draws s' k) h = absurd h
own-Owns s c (waits s' k t) h = absurd h
own-Owns s c (holds s' k h') h = rw h
own-Owns s c (releases s' k r v) h = rw h
own-Owns s c (hands s' k h') h = rw h
own-Owns s c (advances s' k) h = rw h

-- With fewer than 256 threads, at most one of them holds the lock to read, and at most one to write.
pub one_owner :
    (n : ℕ)
    → n < 256
    → (y : System) → Reachable n y
    → (s : HandoverType) (i j : ℕ) → Owns s (y.threads i)
    → Owns s (y.threads j)
    → i ≡ j
one_owner n few y r s i j a b =
    let c = (queue s y.node).current in
    (Reachable-InOrder s n y few r).unique i j c (own-Owns s c (y.threads i) a)
      (own-Owns s c (y.threads j) b)
