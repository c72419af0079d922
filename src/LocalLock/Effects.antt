-- ===== src/LocalLock/Effects.antt =====
-- What each step of a thread does to the result that the readers share.
use riiver_rolex.Base.{
  ℕ, ◌≡◌, refl, sym, ap, ◌∙◌, ◌⊎◌, inl, inr, Bool, true, false, Option, none, some, arith, ◌==◌,
  if◌then◌else◌, Bool-cases, ==_iff,
}
use riiver_rolex.LocalLock.{
  HandoverType, read_handover, write_handover, LocalLockNode, is_key, announce, hand_over,
  read_result, enter, after, announced, put_queue, queue, Pc, idle, calls, combines, draws, waits,
  holds, releases, hands, advances, access, stored,
}
use riiver_rolex.LocalLock.Tickets.{own}
use riiver_rolex.LocalLock.Moves.{enter-cases}
use riiver_rolex.LocalLock.Leaves.{Leaves, Leaves-refl, write-Leaves, announce-Leaves}
use riiver_rolex.LocalLock.Exclusion.{Owns}

-- What a reader that has passed its wait knows of the node, and of the result that is stored last.
abbrev pub Mine : LocalLockNode → Option (ℕ × Bool × ℕ) → Pc → Type 0
Mine n l (holds read_handover k h) = (n.read.unique_key ≡ some k) × (n.read.handover ≡ h)
Mine n l (holds write_handover k h) = Unit {0}
Mine n l (releases read_handover k r v) = n.read.unique_key ≡ some k
Mine n l (releases write_handover k r v) = Unit {0}
Mine n l (hands read_handover k h) =
    (n.read.unique_key ≡ some k) × (l ≡ some (k, n.res, n.ret_value))
Mine n l (hands write_handover k h) = Unit {0}
Mine n l (advances s k) = Unit {0}
Mine n l idle = Unit {0}
Mine n l (calls s k v) = Unit {0}
Mine n l (combines k v) = Unit {0}
Mine n l (draws s k) = Unit {0}
Mine n l (waits s k t) = Unit {0}

-- While results are handed over, the one that is stored is of the key that the lock is for.
abbrev pub Told : LocalLockNode → Option (ℕ × Bool × ℕ) → Type 0
Told n l =
    n.read.handover ≡ true
    → (k : ℕ) × (n.read.unique_key ≡ some k) × (l ≡ some (k, n.res, n.ret_value))

pub Mine-cases :
    (p : Pc) → Owns read_handover p ⊎ ((n : LocalLockNode) (l : Option (ℕ × Bool × ℕ)) → Mine n l p)
Mine-cases idle = inr (λ n l. tt)
Mine-cases (calls s k v) = inr (λ n l. tt)
Mine-cases (combines k v) = inr (λ n l. tt)
Mine-cases (draws s k) = inr (λ n l. tt)
Mine-cases (waits s k t) = inr (λ n l. tt)
Mine-cases (holds read_handover k h) = inl refl
Mine-cases (holds write_handover k h) = inr (λ n l. tt)
Mine-cases (releases read_handover k r v) = inl refl
Mine-cases (releases write_handover k r v) = inr (λ n l. tt)
Mine-cases (hands read_handover k h) = inl refl
Mine-cases (hands write_handover k h) = inr (λ n l. tt)
Mine-cases (advances s k) = inr (λ n l. tt)

-- A step that leaves all of it alone, or one by the thread whose ticket is served.
abbrev Effect :
    LocalLockNode → LocalLockNode → Pc → Pc → Option (ℕ × Bool × ℕ) → Option (ℕ × Bool × ℕ) → Type 0
Effect n n' p p' l l' =
    (Leaves n n' × (l' ≡ l) × (Mine n l p → Mine n' l' p'))
    ⊎ ((own read_handover n.read.current p ≡ some n.read.current)
        × (Mine n l p → Told n l → Mine n' l' p' × Told n' l'))

enter-Effect :
    (is_open : Bool) (s : HandoverType) (k t : ℕ) (n : LocalLockNode) (l : Option (ℕ × Bool × ℕ))
    → t ≡ (queue s n).current
    → Effect n
        (put_queue s (enter is_open k (queue s n)).1 n)
        (waits s k t)
        (after s k (enter is_open k (queue s n)).0)
        l
        l
unfolding own
enter-Effect is_open read_handover k t n l e = elim (enter-cases is_open k n.read) [
  | inl (h, a, same, c) ↦ rw a (
      inr
        (ap some e, λ m told. ((found n.read.unique_key same, refl), λ u. told (kept (sym c ∙ u)))))
  | inr a ↦ rw a (inl (Leaves-refl n, refl, λ m. tt))
]
  where
    found : (u : Option ℕ) → is_key k u ≡ true → u ≡ some k
    found none f = cc
    found (some j) f = ap some ((==_iff j k).0 f)

    kept : (if is_open then n.read.handover else false) ≡ true → n.read.handover ≡ true
    kept f = ground arith
enter-Effect is_open write_handover k t n l e = elim (enter-cases is_open k n.write) [
  | inl (h, a, _, _) ↦ rw a (inl (write-Leaves n _, refl, λ m. tt))
  | inr a ↦ rw a (inl (Leaves-refl n, refl, λ m. tt))
]

-- The result that a release of a reader for key `k` leaves for others is one of that key.
pub result_of_key :
    (res : Bool) (v k : ℕ) (n : LocalLockNode) (l : Option (ℕ × Bool × ℕ))
    → n.read.unique_key ≡ some k
    → Told n l
    → stored (releases read_handover k res v) n l
      ≡ some (k, (read_result res v n).0, (read_result res v n).1)
unfolding read_result
result_of_key res v k n l mine told = by_handover n.read.handover told
  where
    by_handover :
        (h : Bool)
        → (h ≡ true → (j : ℕ) × (n.read.unique_key ≡ some j) × (l ≡ some (j, n.res, n.ret_value)))
        → (if h then l else some (k, res, v))
          ≡ some (
            k,
            (if◌then◌else◌ {A = Bool × ℕ} h (n.res, n.ret_value) (res, v)).0,
            (if◌then◌else◌ {A = Bool × ℕ} h (n.res, n.ret_value) (res, v)).1,
          )
    by_handover true t =
        let (j, mine', told') = t refl in
        let same : j ≡ k = cc in told' ∙ ap (λ i. some (i, n.res, n.ret_value)) same
    by_handover false t = refl

called-Mine :
    (n : LocalLockNode) (l : Option (ℕ × Bool × ℕ)) (s : HandoverType) (k v : ℕ) (go : Bool)
    → Mine n l (if go then announced s k v else idle)
called-Mine n l read_handover k v true = tt
called-Mine n l write_handover k v true = tt
called-Mine n l s k v false = tt

-- The handover is stored, with the key if there is one to hand over to.
hand_over-Told :
    (h : Bool) (k : ℕ) (n : LocalLockNode) (l : Option (ℕ × Bool × ℕ))
    → n.read.unique_key ≡ some k
    → l ≡ some (k, n.res, n.ret_value)
    → Told (record n { read = hand_over h n.read }) l
hand_over-Told true k n l mine last u = (k, mine, last)
hand_over-Told false k n l mine last u = cc

pub access-Effect :
    (is_open : Bool) (p : Pc) (n : LocalLockNode) (l : Option (ℕ × Bool × ℕ))
    → Effect n (access is_open p n).1 p (access is_open p n).0 l (stored p n l)
unfolding access own
access-Effect is_open idle n l = inl (Leaves-refl n, refl, λ m. tt)
access-Effect is_open (calls read_handover k v) n l =
    let a = announce k n.read in
    inl (
      announce-Leaves k n,
      refl,
      λ m. called-Mine (record n { read = a.1 }) l read_handover k v a.0,
    )
access-Effect is_open (calls write_handover k v) n l =
    let a = announce k n.write in
    inl (
      write-Leaves n a.1,
      refl,
      λ m. called-Mine (record n { write = a.1 }) l write_handover k v a.0,
    )
access-Effect is_open (combines k v) n l =
    inl (record { key = λ j e. e; handover = refl; res = refl; ret_value = refl }, refl, λ m. tt)
access-Effect is_open (draws read_handover k) n l =
    inl (record { key = λ j e. e; handover = refl; res = refl; ret_value = refl }, refl, λ m. tt)
access-Effect is_open (draws write_handover k) n l = inl (write-Leaves n _, refl, λ m. tt)
access-Effect is_open (waits s k t) n l = elim (Bool-cases (t == (queue s n).current)) [
  | inl e ↦ rw e (enter-Effect is_open s k t n l ((==_iff t (queue s n).current).0 e))
  | inr e ↦ rw e (inl (Leaves-refl n, refl, λ m. tt))
]
access-Effect is_open (holds s k h) n l = inl (Leaves-refl n, refl, λ m. m)
access-Effect is_open (releases read_handover k res v) n l =
    inr (
      refl,
      λ m told. let last = result_of_key res v k n l m told in ((m, last), λ u. (k, m, last)),
    )
access-Effect is_open (releases write_handover k res v) n l = inl (Leaves-refl n, refl, λ m. tt)
access-Effect is_open (hands read_handover k h) n l =
    inr (refl, λ m told. (tt, hand_over-Told h k n l m.0 m.1))
access-Effect is_open (hands write_handover k h) n l = inl (write-Leaves n _, refl, λ m. tt)
access-Effect is_open (advances read_handover k) n l =
    inl (record { key = λ j e. e; handover = refl; res = refl; ret_value = refl }, refl, λ m. tt)
access-Effect is_open (advances write_handover k) n l = inl (write-Leaves n _, refl, λ m. tt)
