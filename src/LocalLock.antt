-- ===== src/LocalLock.antt =====
-- include/LocalLockTable.h: the local lock of a key, by which the threads and coroutines of a client
-- wait for one another, share the result of a read, and combine their writes. A call is cut so that a
-- step has at most one access to what threads outside the lock change too: the announced key, the
-- ticket, the buffer of writes, `current`. The time windows (`read_window`, `write_window`,
-- `window_start`) are changed by the threads of both queues, with no lock in common. They are no part of
-- the state: where a thread reads whether the window of its queue counts some thread, it may read either.
pub mod Effects
pub mod Exclusion
pub mod Leaves
pub mod Moves
pub mod Sharing
pub mod Tickets
mod Tests
use riiver_rolex.Key.{Key}
use riiver_rolex.Layout.{mb}
use riiver_rolex.Base.{
  ℕ, zero, suc, ◌+◌, ◌-◌, ◌*◌, ◌/◌, ◌%◌, ◌^◌, ◌≤◌, ◌<◌, min, max, ◌≡◌, refl, sym, ap, ◌∙◌, ◌≢◌, ◌↔◌,
  ◌⊎◌, inl, inr, Bool, true, false, not, ◌&&◌, ◌||◌, Option, none, some, List, [], ◌∷◌, ◌++◌, map,
  arith, ltb, leb, ◌==◌, if◌then◌else◌, Bool-cases, Option-cases, length, get_elem?, set, get_or,
  take, drop, replicate, length-append, length-set, length-take, length-drop, length-replicate,
  length-map, ◌>>=◌, >>=-eq-some, ==_iff, dec_lt, ℕ_discrete, get_elem?-set_self, get_elem?-set_ne,
  take-append-drop, ltb→lt, lt→ltb,
}

-- `kLocalLockNum`
abbrev pub local_lock_num : ℕ
local_lock_num = 4 * mb

-- `get_hashed_local_lock_index` of a key: the node of the table that the calls for the key use.
unfoldable pub hash_from : ℕ → ℕ → Key → ℕ
hash_from res cnt [] = res
hash_from res cnt (a ∷ k) =
    hash_from (if ltb cnt 8 then (res * 2 ^ 8 + a) % 2 ^ 64 else res) (cnt + 1) k

unfoldable pub get_hashed_local_lock_index : Key → ℕ
unfolding hash_from
get_hashed_local_lock_index k = hash_from 0 0 k % local_lock_num

-- `HandoverType`
pub data HandoverType : Type 0 where
  read_handover : HandoverType
  write_handover : HandoverType

-- The fields of `LocalLockNode` that there are of both kinds: `read_current`, `write_current` and so on,
-- without the windows.
pub record WaitingQueue : Type 0 where
  pub current : ℕ  -- 8 bits
  pub ticket : ℕ  -- 8 bits
  pub handover : Bool
  pub unique_key : Option ℕ  -- the number of the key; `none` is the null pointer

pub record LocalLockNode : Type 0 where
  pub read : WaitingQueue
  pub write : WaitingQueue
  pub res : Bool
  pub ret_value : ℕ
  pub wc_buffer : ℕ

-- `LocalLockNode()`
abbrev pub new_queue : WaitingQueue
new_queue = record { current = 0; ticket = 0; handover = false; unique_key = none }

abbrev pub new_node : LocalLockNode
new_node = record { read = new_queue; write = new_queue; res = false; ret_value = 0; wc_buffer = 0 }

-- `unique_key && *unique_key == k`
abbrev pub is_key : ℕ → Option ℕ → Bool
is_key k none = false
is_key k (some k') = k' == k

-- The compare-and-swap of the unique key: the pointer that is left, where the key conflicts with it or
-- not.
unfoldable pub announce : ℕ → WaitingQueue → Bool × WaitingQueue
announce k q = elim q.unique_key [
  | none ↦ (true, record q { unique_key = some k })
  | some k' ↦ (k' == k, q)
]

abbrev pub draw : WaitingQueue → WaitingQueue
draw q = record q { ticket = (q.ticket + 1) % 256 }

abbrev pub next : WaitingQueue → WaitingQueue
next q = record q { current = (q.current + 1) % 256 }

-- The functions for readers and writers behind their waits, where `is_open` is what is read of the window of
-- the queue: the handover, or `none` for a conflict of keys.
unfoldable pub enter : Bool → ℕ → WaitingQueue → Option Bool × WaitingQueue
enter is_open k q =
    let h = if is_open then q.handover else false in
    if is_key k q.unique_key then (some h, record q { handover = h }) else (none, q)

-- Whether a release hands over, by the ticket that it reads.
abbrev pub hands_over : WaitingQueue → Bool
hands_over q = not (q.ticket == (q.current + 1) % 256)

-- The handover is stored; the unique key is kept only for those that take over.
abbrev pub hand_over : Bool → WaitingQueue → WaitingQueue
hand_over h q = record q { handover = h; unique_key = if h then q.unique_key else none }

-- What `release_local_read_lock` gives back in `res` and `ret_value`.
unfoldable pub read_result : Bool → ℕ → LocalLockNode → Bool × ℕ
read_result res ret_value n = if n.read.handover then (n.res, n.ret_value) else (res, ret_value)

-- `get_combining_value`: the value of the buffer, and whether it is another one
unfoldable pub get_combining_value : ℕ → ℕ → LocalLockNode → Bool × ℕ
get_combining_value k v n =
    if is_key k n.write.unique_key then (not (n.wc_buffer == v), n.wc_buffer) else (false, v)

-- Where a thread or coroutine stands in a call.
pub data Pc : Type 0 where
  idle : Pc
  -- before the compare-and-swap of the key, with the value of a write
  calls : HandoverType → ℕ → ℕ → Pc
  -- before the store to the buffer of combined writes
  combines : ℕ → ℕ → Pc
  -- before it draws its ticket
  draws : HandoverType → ℕ → Pc
  waits : HandoverType → ℕ → ℕ → Pc
  -- the lock is acquired, with the handover
  holds : HandoverType → ℕ → Bool → Pc
  -- `release`, with the result of the read
  releases : HandoverType → ℕ → Bool → ℕ → Pc
  -- before it stores the handover
  hands : HandoverType → ℕ → Bool → Pc
  -- before it advances `current`, in a release or after a conflict
  advances : HandoverType → ℕ → Pc

abbrev pub queue : HandoverType → LocalLockNode → WaitingQueue
queue read_handover n = n.read
queue write_handover n = n.write

abbrev pub put_queue : HandoverType → WaitingQueue → LocalLockNode → LocalLockNode
put_queue read_handover q n = record n { read = q }
put_queue write_handover q n = record n { write = q }

abbrev pub announced : HandoverType → ℕ → ℕ → Pc
announced read_handover k v = draws read_handover k
announced write_handover k v = combines k v

abbrev pub after : HandoverType → ℕ → Option Bool → Pc
after s k none = advances s k
after s k (some h) = holds s k h

-- The next step of a thread, where `is_open` is what it may read of the window of its queue.
unfoldable pub access : Bool → Pc → LocalLockNode → Pc × LocalLockNode
unfolding announce enter read_result
access is_open idle n = (idle, n)
access is_open (calls s k v) n =
    let a = announce k (queue s n) in (if a.0 then announced s k v else idle, put_queue s a.1 n)
access is_open (combines k v) n = (draws write_handover k, record n { wc_buffer = v })
access is_open (draws s k) n = (waits s k (queue s n).ticket, put_queue s (draw (queue s n)) n)
access is_open (waits s k t) n =
    let e = enter is_open k (queue s n) in
    if t == (queue s n).current then (after s k e.0, put_queue s e.1 n) else (waits s k t, n)
access is_open (holds s k h) n = (holds s k h, n)
access is_open (releases read_handover k res v) n =
    let out = read_result res v n in
    (hands read_handover k (hands_over n.read), record n { res = out.0; ret_value = out.1 })
access is_open (releases write_handover k res v) n =
    (hands write_handover k (hands_over n.write), n)
access is_open (hands s k h) n = (advances s k, put_queue s (hand_over h (queue s n)) n)
access is_open (advances s k) n = (idle, put_queue s (next (queue s n)) n)

-- The calls of the four functions, a release by a thread that holds the lock.
pub data Call : Pc → Pc → Type 0 where
  acquire : (s : HandoverType) (k v : ℕ) → Call idle (calls s k v)
  release :
      (s : HandoverType) (k : ℕ) (h res : Bool) (v : ℕ) → Call (holds s k h) (releases s k res v)

abbrev pub update : (ℕ → Pc) → ℕ → Pc → ℕ → Pc
update f i p j = if i == j then p else f j

-- One node of the table and `n` threads; `last` is the key and the result of the last read that was
-- stored for others.
pub record System : Type 0 where
  pub node : LocalLockNode
  pub threads : ℕ → Pc
  pub last : Option (ℕ × Bool × ℕ)

abbrev pub stored : Pc → LocalLockNode → Option (ℕ × Bool × ℕ) → Option (ℕ × Bool × ℕ)
stored (releases read_handover k res v) n l = if n.read.handover then l else some (k, res, v)
stored p n l = l

pub data Step (n : ℕ) (s : System) : System → Type 0 where
  run :
      (i : ℕ) (is_open : Bool)
      → i < n
      → Step n s (record {
        node = (access is_open (s.threads i) s.node).1;
        threads = update s.threads i (access is_open (s.threads i) s.node).0;
        last = stored (s.threads i) s.node s.last;
      })
  call :
      (i : ℕ) (p : Pc)
      → i < n
      → Call (s.threads i) p
      → Step n s (record s { threads = update s.threads i p })

abbrev pub initial : System
initial = record { node = new_node; threads = λ _. idle; last = none }

pub data Reachable (n : ℕ) : System → Type 0 where
  start : Reachable n initial
  step : {s s' : System} → Reachable n s → Step n s s' → Reachable n s'
