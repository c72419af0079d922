-- ===== src/LocalLock/Sharing.antt =====
-- Whose result a read takes over: that of a read of the same key.
use riiver_rolex.Base.{
  ℕ, ◌<◌, ◌≡◌, refl, sym, ap, ◌∙◌, ◌≢◌, ◌⊎◌, inl, inr, Bool, true, false, Option, some, ◌==◌,
  if◌then◌else◌, Bool-cases, ==_iff,
}
use mathlib.Core.Path.{subst}
use riiver_rolex.LocalLock.{
  read_handover, write_handover, LocalLockNode, read_result, Pc, idle, calls, combines, draws,
  waits, holds, releases, hands, advances, access, stored, Call, acquire, release, update, System,
  Step, run, call, Reachable, start, step,
}
use riiver_rolex.LocalLock.Tickets.{own}
use riiver_rolex.LocalLock.Leaves.{Leaves}
use riiver_rolex.LocalLock.Exclusion.{Ordered, Reachable-InOrder, own-Owns}
use riiver_rolex.LocalLock.Effects.{Mine, Told, Mine-cases, result_of_key, access-Effect}

-- The invariant.
pub record IsShared (y : System) : Type 0 where
  pub mine : (i : ℕ) → Mine y.node y.last (y.threads i)
  pub told : Told y.node y.last

-- What is stored last, and the result of the node, stay together.
Leaves-last :
    (n n' : LocalLockNode) (l l' : Option (ℕ × Bool × ℕ)) (k : ℕ)
    → Leaves n n'
    → l' ≡ l
    → l ≡ some (k, n.res, n.ret_value)
    → l' ≡ some (k, n'.res, n'.ret_value)
Leaves-last n n' l l' k e same last =
    same
    ∙ last
    ∙ ap (λ (r : Bool). some (k, r, n.ret_value)) (sym e.res)
    ∙ ap (λ (x : ℕ). some (k, n'.res, x)) (sym e.ret_value)

Leaves-Mine :
    (n n' : LocalLockNode) (l l' : Option (ℕ × Bool × ℕ)) (p : Pc)
    → Leaves n n'
    → l' ≡ l
    → Mine n l p
    → Mine n' l' p
Leaves-Mine n n' l l' (holds read_handover k h) e q m = (e.key k m.0, e.handover ∙ m.1)
Leaves-Mine n n' l l' (holds write_handover k h) e q m = tt
Leaves-Mine n n' l l' (releases read_handover k r v) e q m = e.key k m
Leaves-Mine n n' l l' (releases write_handover k r v) e q m = tt
Leaves-Mine n n' l l' (hands read_handover k h) e q m =
    (e.key k m.0, Leaves-last n n' l l' k e q m.1)
Leaves-Mine n n' l l' (hands write_handover k h) e q m = tt
Leaves-Mine n n' l l' (advances s k) e q m = tt
Leaves-Mine n n' l l' idle e q m = tt
Leaves-Mine n n' l l' (calls s k v) e q m = tt
Leaves-Mine n n' l l' (combines k v) e q m = tt
Leaves-Mine n n' l l' (draws s k) e q m = tt
Leaves-Mine n n' l l' (waits s k t) e q m = tt

-- Another thread is not in the lock where it is the turn of this one.
other-Mine :
    (c : ℕ) (n n' : LocalLockNode) (l l' : Option (ℕ × Bool × ℕ)) (p x : Pc)
    → (own read_handover c p ≡ some c → own read_handover c x ≡ some c → ⊥)
    → own read_handover c p ≡ some c
    → Mine n l x
    → Mine n' l' x
other-Mine c n n' l l' p x apart h m = elim (Mine-cases x) [
  | inl o ↦ absurd (apart h (own-Owns read_handover c x o))
  | inr t ↦ t n' l'
]

update_self : (f : ℕ → Pc) (i : ℕ) (p : Pc) → update f i p i ≡ p
update_self f i p = rw ((==_iff i i).1 refl)

update_ne : (f : ℕ → Pc) (i j : ℕ) (p : Pc) → (i == j) ≡ false → update f i p j ≡ f j
update_ne f i j p h = rw h

update-Mine :
    (n : LocalLockNode) (l : Option (ℕ × Bool × ℕ)) (f : ℕ → Pc) (i : ℕ) (p : Pc)
    → Mine n l p
    → ((j : ℕ) → i ≢ j → Mine n l (f j))
    → (j : ℕ) → Mine n l (update f i p j)
update-Mine n l f i p h rest j = elim (Bool-cases (i == j)) [
  | inl e ↦ subst (Mine n l) (sym (ap (λ (b : Bool). if b then p else f j) e)) h
  | inr e ↦
      subst (Mine n l) (sym (update_ne f i j p e)) (rest j (λ q. let t = (==_iff i j).1 q in cc))
]

Step-IsShared :
    (n : ℕ) (y z : System) → Ordered read_handover n y → Step n y z → IsShared y → IsShared z
Step-IsShared n y z o (run i is_open lt) h =
    let p = y.threads i in
    let a = access is_open p y.node in
    let last = stored p y.node y.last in
    elim (access-Effect is_open p y.node y.last) [
      | inl (e, l, m) ↦ record {
        mine =
            update-Mine a.1 last y.threads i a.0 (m (h.mine i))
              (λ j ne. Leaves-Mine y.node a.1 y.last last (y.threads j) e l (h.mine j));
        told = λ u.
            let (k, key, told) = h.told (sym e.handover ∙ u) in
            (k, e.key k key, Leaves-last y.node a.1 y.last last k e l told);
      }
      | inr (c, m) ↦
          let (m', t') = m (h.mine i) h.told in
          record {
            mine = update-Mine a.1 last y.threads i a.0 m' (λ j ne.
                other-Mine y.node.read.current y.node a.1 y.last last p (y.threads j)
                  (λ b b'. ne (o.unique i j y.node.read.current b b')) c (h.mine j));
            told = t';
          }
    ]
Step-IsShared n y z o (call i p lt c) h = record {
  mine = update-Mine y.node y.last y.threads i p (called c (h.mine i)) (λ j ne. h.mine j);
  told = h.told;
}
  where
    called : {x x' : Pc} → Call x x' → Mine y.node y.last x → Mine y.node y.last x'
    called (acquire s k v) m = tt
    called (release read_handover k b r v) m = m.0
    called (release write_handover k b r v) m = tt

Reachable-IsShared : (n : ℕ) (y : System) → n < 256 → Reachable n y → IsShared y
Reachable-IsShared n y few start = record { mine = λ i. tt; told = λ u. cc }
Reachable-IsShared n z few (step {s = y} r m) =
    Step-IsShared n y z (Reachable-InOrder read_handover n y few r) m (Reachable-IsShared n y few r)

-- With fewer than 256 threads, a release of a reader returns its own result where nothing is handed
-- over to it, and else that of the last read that was stored for others, which was of the same key.
pub read_result_lem :
    (n : ℕ)
    → n < 256
    → (y : System) → Reachable n y
    → (i k : ℕ) (res : Bool) (v : ℕ) → y.threads i ≡ releases read_handover k res v
    → ((y.node.read.handover ≡ false) × (read_result res v y.node ≡ (res, v)))
      ⊎ ((y.node.read.handover ≡ true)
          × (y.last ≡ some (k, (read_result res v y.node).0, (read_result res v y.node).1)))
unfolding read_result
read_result_lem n few y r i k res v e = elim (Bool-cases y.node.read.handover) [
  | inl h ↦
      let shared = Reachable-IsShared n y few r in
      let mine : y.node.read.unique_key ≡ some k = subst (Mine y.node y.last) e (shared.mine i) in
      inr (h, sym (if_true h) ∙ result_of_key res v k y.node y.last mine shared.told)
  | inr h ↦ inl (h, ap (λ (b : Bool). if b then (y.node.res, y.node.ret_value) else (res, v)) h)
]
  where
    if_true :
        y.node.read.handover ≡ true
        → (if y.node.read.handover then y.last else some (k, res, v)) ≡ y.last
    if_true h = ap (λ (b : Bool). if b then y.last else some (k, res, v)) h
