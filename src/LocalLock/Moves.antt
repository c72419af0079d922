-- ===== src/LocalLock/Moves.antt =====
-- What each step of a thread does to the tickets of the two queues.
use riiver_rolex.Base.{
  ℕ, ◌+◌, ◌%◌, ◌≡◌, refl, sym, ap, ◌⊎◌, inl, inr, Bool, true, false, none, some, ◌==◌,
  if◌then◌else◌, Bool-cases, Option-cases, ==_iff,
}
use riiver_rolex.LocalLock.{
  HandoverType, read_handover, write_handover, WaitingQueue, LocalLockNode, is_key, announce, draw,
  next, enter, hand_over, Pc, idle, calls, combines, draws, waits, holds, releases, hands, advances,
  queue, put_queue, announced, after, access,
}
use riiver_rolex.LocalLock.Tickets.{own, has, same, same_self}

abbrev Same : WaitingQueue → WaitingQueue → Type 0
Same q q' = (q'.current ≡ q.current) × (q'.ticket ≡ q.ticket)

announce-Same : (k : ℕ) (q : WaitingQueue) → Same q (announce k q).1
unfolding announce
announce-Same k q = elim (Option-cases q.unique_key) [
  | inl e ↦ rw e (refl, refl)
  | inr (j, e) ↦ rw e (refl, refl)
]

pub enter-cases :
    (is_open : Bool) (k : ℕ) (q : WaitingQueue)
    → ((h : Bool) × (enter is_open k q ≡ (some h, record q { handover = h }))
        × (is_key k q.unique_key ≡ true)
        × (h ≡ (if is_open then q.handover else false)))
      ⊎ (enter is_open k q ≡ (none, q))
unfolding enter
enter-cases is_open k q = elim (Bool-cases (is_key k q.unique_key)) [
  | inl t ↦ inl (if is_open then q.handover else false, rw t refl, t, refl)
  | inr t ↦ inr (rw t refl)
]

-- A step of a thread from `p` to `p'`, between the queues `q` and `q'` of the kind `s`.
abbrev pub Moved : HandoverType → WaitingQueue → WaitingQueue → Pc → Pc → Type 0
Moved s q q' p p' =
    (Same q q' × (own s q.current p' ≡ own s q.current p) × (has s p' ≡ has s p))
    ⊎ (((q'.current ≡ q.current)
          × (q'.ticket ≡ (q.ticket + 1) % 256)
          × (own s q.current p ≡ none)
          × (has s p ≡ 0)
          × (own s q.current p' ≡ some q.ticket)
          × (has s p' ≡ 1))
        ⊎ (((q'.current ≡ (q.current + 1) % 256) × (q'.ticket ≡ q.ticket))
            × (own s q.current p ≡ some q.current)
            × (has s p ≡ 1)
            × ((d : ℕ) → own s d p' ≡ none)
            × (has s p' ≡ 0)))

-- The queue of the other kind, of which a step changes nothing.
abbrev Apart : HandoverType → LocalLockNode → Pc → Pc → Type 0
Apart s n p p' = (own s (queue s n).current p' ≡ own s (queue s n).current p) × (has s p' ≡ has s p)

-- A step on the queue of the kind `s'`.
placed :
    (s s' : HandoverType) (n : LocalLockNode) (q' : WaitingQueue) (p p' : Pc)
    → Moved s' (queue s' n) q' p p'
    → (same s s' ≡ false → Apart s n p p')
    → Moved s (queue s n) (queue s (put_queue s' q' n)) p p'
placed read_handover read_handover n q' p p' m a = m
placed read_handover write_handover n q' p p' m a = inl ((refl, refl), (a refl).0, (a refl).1)
placed write_handover read_handover n q' p p' m a = inl ((refl, refl), (a refl).0, (a refl).1)
placed write_handover write_handover n q' p p' m a = m

announced_lem :
    (s s' : HandoverType) (c k v : ℕ) (go : Bool)
    → (own s c (if go then announced s' k v else idle) ≡ none)
      × (has s (if go then announced s' k v else idle) ≡ 0)
unfolding own has
announced_lem s s' c k v false = (refl, refl)
announced_lem s read_handover c k v true = (refl, refl)
announced_lem s write_handover c k v true = (refl, refl)

-- The end of a wait.
enter-Moved :
    (is_open : Bool) (s s' : HandoverType) (k t : ℕ) (n : LocalLockNode)
    → t ≡ (queue s' n).current
    → Moved s
        (queue s n)
        (queue s (put_queue s' (enter is_open k (queue s' n)).1 n))
        (waits s' k t)
        (after s' k (enter is_open k (queue s' n)).0)
unfolding own has
enter-Moved is_open s s' k t n e = elim (enter-cases is_open k (queue s' n)) [
  | inl (h, a, _, _) ↦ rw a (
      placed s s' n (record (queue s' n) { handover = h }) (waits s' k t) (holds s' k h)
        (rw (same_self s') (inl ((refl, refl), ap some (sym e), refl))) (λ f. rw f (refl, refl)))
  | inr a ↦ rw a (
      placed s s' n (queue s' n) (waits s' k t) (advances s' k)
        (rw (same_self s') (inl ((refl, refl), ap some (sym e), refl))) (λ f. rw f (refl, refl)))
]

pub access-Moved :
    (is_open : Bool) (s : HandoverType) (p : Pc) (n : LocalLockNode)
    → Moved s (queue s n) (queue s (access is_open p n).1) p (access is_open p n).0
unfolding access own has
access-Moved is_open s idle n = inl ((refl, refl), refl, refl)
access-Moved is_open s (calls s' k v) n =
    let a = announce k (queue s' n) in
    let p = if a.0 then announced s' k v else idle in
    let t = announced_lem s' s' (queue s' n).current k v a.0 in
    placed s s' n a.1 (calls s' k v) p (inl (announce-Same k (queue s' n), t.0, t.1))
      (λ f. announced_lem s s' (queue s n).current k v a.0)
access-Moved is_open read_handover (combines k v) n = inl ((refl, refl), refl, refl)
access-Moved is_open write_handover (combines k v) n = inl ((refl, refl), refl, refl)
access-Moved is_open s (draws s' k) n =
    placed s s' n (draw (queue s' n)) (draws s' k) (waits s' k (queue s' n).ticket)
      (rw (same_self s') (inr (inl (refl, refl, refl, refl, refl, refl)))) (λ f. rw f (refl, refl))
access-Moved is_open s (waits s' k t) n = elim (Bool-cases (t == (queue s' n).current)) [
  | inl e ↦ rw e (enter-Moved is_open s s' k t n ((==_iff t (queue s' n).current).0 e))
  | inr e ↦ rw e (inl ((refl, refl), refl, refl))
]
access-Moved is_open s (holds s' k h) n = inl ((refl, refl), refl, refl)
access-Moved is_open read_handover (releases read_handover k r v) n = inl ((refl, refl), refl, refl)
access-Moved is_open write_handover (releases read_handover k r v) n =
    inl ((refl, refl), refl, refl)
access-Moved is_open read_handover (releases write_handover k r v) n =
    inl ((refl, refl), refl, refl)
access-Moved is_open write_handover (releases write_handover k r v) n =
    inl ((refl, refl), refl, refl)
access-Moved is_open s (hands s' k h) n =
    placed s s' n (hand_over h (queue s' n)) (hands s' k h) (advances s' k)
      (inl ((refl, refl), refl, refl)) (λ f. rw f (refl, refl))
access-Moved is_open s (advances s' k) n =
    placed s s' n (next (queue s' n)) (advances s' k) idle
      (rw (same_self s') (inr (inr ((refl, refl), refl, refl, (λ d. refl), refl))))
      (λ f. rw f (refl, refl))
