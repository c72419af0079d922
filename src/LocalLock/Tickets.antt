-- ===== src/LocalLock/Tickets.antt =====
-- Who has which ticket of a waiting queue: a ticket that is drawn, kept or given back.
use riiver_rolex.Base.{
  ℕ, zero, suc, ◌+◌, ◌-◌, ◌%◌, ◌≤◌, ◌<◌, ◌≡◌, refl, ◌⊎◌, Bool, true, false, Option, none, some,
  arith, if◌then◌else◌, dec_lt,
}
use riiver_rolex.LocalLock.{
  HandoverType, read_handover, write_handover, Pc, idle, calls, combines, draws, waits, holds,
  releases, hands, advances, update,
}

abbrev pub same : HandoverType → HandoverType → Bool
same read_handover read_handover = true
same read_handover write_handover = false
same write_handover read_handover = false
same write_handover write_handover = true

-- The ticket of a thread: who holds the lock has the one that is served.
unfoldable pub own : HandoverType → ℕ → Pc → Option ℕ
own s c idle = none
own s c (calls s' k v) = none
own s c (combines k v) = none
own s c (draws s' k) = none
own s c (waits s' k t) = if same s s' then some t else none
own s c (holds s' k h) = if same s s' then some c else none
own s c (releases s' k r v) = if same s s' then some c else none
own s c (hands s' k h) = if same s s' then some c else none
own s c (advances s' k) = if same s s' then some c else none

unfoldable pub has : HandoverType → Pc → ℕ
has s idle = 0
has s (calls s' k v) = 0
has s (combines k v) = 0
has s (draws s' k) = 0
has s (waits s' k t) = if same s s' then 1 else 0
has s (holds s' k h) = if same s s' then 1 else 0
has s (releases s' k r v) = if same s s' then 1 else 0
has s (hands s' k h) = if same s s' then 1 else 0
has s (advances s' k) = if same s s' then 1 else 0

pub same_self : (s : HandoverType) → same s s ≡ true
same_self read_handover = refl
same_self write_handover = refl

pub total : HandoverType → ℕ → (ℕ → Pc) → ℕ
total s zero f = 0
total s (suc n) f = total s n f + has s (f n)

total-update_ge :
    (s : HandoverType) (n : ℕ) (f : ℕ → Pc) (i : ℕ) (p : Pc)
    → n ≤ i
    → total s n (update f i p) ≡ total s n f
unfolding total
total-update_ge s zero f i p h = refl
total-update_ge s (suc n) f i p h = ground (arith, total-update_ge s n f i p)

pub total-update :
    (s : HandoverType) (n : ℕ) (f : ℕ → Pc) (i : ℕ) (p : Pc)
    → i < n
    → total s n (update f i p) + has s (f i) ≡ total s n f + has s p
unfolding total
total-update s zero f i p h = absurd (omega arith)
total-update s (suc n) f i p h = elim (dec_lt i n) [
  | yes below ↦ ground (arith, total-update s n f i p below)
  | no last ↦ ground (arith, total-update_ge s n f i p)
]

has-le : (s : HandoverType) (p : Pc) → has s p ≤ 1
unfolding has
has-le s p = ground arith

pub total-le : (s : HandoverType) (n : ℕ) (f : ℕ → Pc) → total s n f ≤ n
unfolding total
total-le s zero f = omega arith
total-le s (suc n) f = omega (arith, total-le s n f, has-le s (f n))

pub total_idle : (s : HandoverType) (n : ℕ) → total s n (λ _. idle) ≡ 0
unfolding total has
total_idle s zero = refl
total_idle s (suc n) = omega (arith, total_idle s n)

-- The tickets that are out are those from `current` on, modulo 256, each with one thread.
pub record InOrder (s : HandoverType) (n c t : ℕ) (f : ℕ → Pc) : Type 0 where
  pub low : c < 256
  pub handed : t ≡ (c + total s n f) % 256
  pub range : (i x : ℕ) → own s c (f i) ≡ some x → (x < 256) × ((x + 256 - c) % 256 < total s n f)
  pub unique : (i j x : ℕ) → own s c (f i) ≡ some x → own s c (f j) ≡ some x → i ≡ j

module _ (s : HandoverType) (n c t : ℕ) (f : ℕ → Pc) (few : n < 256) (o : InOrder s n c t f) (i : ℕ)
    (lt : i < n) (p : Pc) where
  -- A step that leaves the ticket of the thread alone.
  pub keep : own s c p ≡ own s c (f i) → has s p ≡ has s (f i) → InOrder s n c t (update f i p)
  keep e h = record {
    low = o.low;
    handed = rw count o.handed;
    range = λ j x q. rw count (ground (arith, o.range i x, o.range j x));
    unique = λ a b x q r. ground (arith, o.unique a b x, o.unique i b x, o.unique a i x);
  }
    where
      count : total s n (update f i p) ≡ total s n f
      count = omega (arith, total-update s n f i p lt)

  pub drawn :
      own s c (f i) ≡ none
      → has s (f i) ≡ 0
      → own s c p ≡ some t
      → has s p ≡ 1
      → InOrder s n c ((t + 1) % 256) (update f i p)
  drawn e h e' h' = record {
    low = o.low;
    handed = omega (arith, o.handed, count);
    range = λ j x q. rw count (ground (arith, o.range j x, o.handed, total-le s n f));
    unique = λ a b x q r.
        ground (arith, o.unique a b x, o.range a t, o.range b t, o.handed, total-le s n f);
  }
    where
      count : total s n (update f i p) ≡ total s n f + 1
      count = omega (arith, total-update s n f i p lt)

  -- The holder goes, and the next ticket is served; a holder is at the ticket that is served.
  pub left :
      own s c (f i) ≡ some c
      → has s (f i) ≡ 1
      → ((d : ℕ) → own s d p ≡ none)
      → has s p ≡ 0
      → ((j : ℕ) → (own s ((c + 1) % 256) (f j) ≡ own s c (f j)) ⊎ (own s c (f j) ≡ some c))
      → InOrder s n ((c + 1) % 256) t (update f i p)
  left e h e' h' moves = record {
    low = omega arith;
    handed = omega (arith, o.handed, count);
    range = λ j x q. ground (
      arith,
      e' ((c + 1) % 256),
      moves j,
      o.unique i j c,
      o.unique i j x,
      o.range j x,
      count,
      o.low,
      total-le s n f,
    );
    unique = λ a b x q r. ground (
      arith,
      e' ((c + 1) % 256),
      moves a,
      moves b,
      o.unique i a c,
      o.unique i b c,
      o.unique a b x,
    );
  }
    where
      count : total s n (update f i p) + 1 ≡ total s n f
      count = omega (arith, total-update s n f i p lt)
