-- ===== src/LocalLock/Tests.antt =====
-- Runs of the local lock: a result that is handed over, also to a reader that came after it was read.
use riiver_rolex.Base.{
  ℕ, ◌<◌, ◌≡◌, refl, ◌⊎◌, Bool, true, false, Option, none, some, List, [], ◌∷◌, ◌++◌, arith, dec_lt,
}
use mathlib.Core.Logic.{dite}
use riiver_rolex.LocalLock.{
  HandoverType, read_handover, write_handover, Pc, idle, holds, releases, access, Call, acquire,
  release, read_result, System, run, call, Reachable, start, step, initial,
}
use riiver_rolex.LocalLock.Exclusion.{one_owner}
use riiver_rolex.LocalLock.Sharing.{read_result_lem}

-- What a thread is told to do: its next step, in which a window that it reads counts some thread, a
-- call, or a release.
data Action : Type 0 where
  go : ℕ → Action
  takes : ℕ → HandoverType → ℕ → ℕ → Action
  gives : ℕ → Bool → ℕ → Action

abbrev Reached : Type 0
Reached = (y : System) × Reachable 6 y

takes_of : (p : Pc) (s : HandoverType) (k v : ℕ) → Option ((p' : Pc) × Call p p')
takes_of idle s k v = some (_, acquire s k v)
takes_of p s k v = none

gives_of : (p : Pc) (res : Bool) (v : ℕ) → Option ((p' : Pc) × Call p p')
gives_of (holds s k h) res v = some (_, release s k h res v)
gives_of p res v = none

calls_of : (i : ℕ) (r : Reached) → i < 6 → Option ((p' : Pc) × Call (r.0.threads i) p') → Reached
calls_of i r lt none = r
calls_of i r lt (some (p', c)) = (_, step r.1 (call i p' lt c))

perform : Action → Reached → Reached
unfolding takes_of gives_of calls_of
perform (go i) r = dite (dec_lt i 6) (λ lt. (_, step r.1 (run i true lt))) (λ _. r)
perform (takes i s k v) r =
    dite (dec_lt i 6) (λ lt. calls_of i r lt (takes_of (r.0.threads i) s k v)) (λ _. r)
perform (gives i res v) r =
    dite (dec_lt i 6) (λ lt. calls_of i r lt (gives_of (r.0.threads i) res v)) (λ _. r)

perform_all : List Action → Reached → Reached
unfolding perform
perform_all [] r = r
perform_all (a ∷ as') r = perform_all as' (perform a r)

-- Threads 0, 1, 2 write and 3, 4, 5 read the key 7. Thread 3 has read 100, thread 4 waits.
abbrev handed_over : List Action
handed_over =
    takes 0 write_handover 7 1
    ∷ go 0
    ∷ go 0
    ∷ go 0
    ∷ go 0
    ∷ takes 1 write_handover 7 2
    ∷ go 1
    ∷ go 1
    ∷ go 1
    ∷ gives 0 true 0
    ∷ go 0
    ∷ go 0
    ∷ go 0
    ∷ takes 3 read_handover 7 0
    ∷ go 3
    ∷ go 3
    ∷ go 3
    ∷ takes 4 read_handover 7 0
    ∷ go 4
    ∷ go 4
    ∷ gives 3 true 100
    ∷ go 3
    ∷ go 3
    ∷ go 3
    ∷ []

-- Then thread 5 comes to read. Thread 1 ends the window that the release of thread 0 has started, and
-- that of thread 2 starts another one, which counts threads 4 and 5; in it thread 4 takes over what
-- thread 3 has read.
abbrev next_window : List Action
next_window =
    takes 5 read_handover 7 0
    ∷ go 5
    ∷ go 5
    ∷ go 1
    ∷ gives 1 true 0
    ∷ go 1
    ∷ go 1
    ∷ go 1
    ∷ takes 2 write_handover 7 3
    ∷ go 2
    ∷ go 2
    ∷ go 2
    ∷ go 2
    ∷ gives 2 true 0
    ∷ go 2
    ∷ go 2
    ∷ go 2
    ∷ go 4
    ∷ gives 4 false 0
    ∷ []

reached : Reached
reached = perform_all (handed_over ++ next_window) (initial, start)

abbrev shown : System → Pc × Bool × ℕ
shown y = (y.threads 4, y.node.read.handover, y.node.ret_value)

reached_shown : shown reached.0 ≡ (releases read_handover 7 false 0, true, 100)
unfolding reached perform_all access dec_lt
reached_shown = refl

-- Thread 5 takes over the 100 as well, which was read before it came.
late : Reached
late = perform_all (go 4 ∷ go 4 ∷ go 4 ∷ go 5 ∷ gives 5 false 0 ∷ []) reached

late_releases : late.0.threads 5 ≡ releases read_handover 7 false 0
unfolding late reached perform_all access dec_lt
late_releases = refl

late_result : read_result false 0 late.0.node ≡ (true, 100)
unfolding late reached perform_all access dec_lt read_result
late_result = refl

read_result_lem_example :
    ((reached.0.node.read.handover ≡ false) × (read_result false 0 reached.0.node ≡ (false, 0)))
    ⊎ ((reached.0.node.read.handover ≡ true)
        × (reached.0.last
            ≡ some (
              7,
              (read_result false 0 reached.0.node).0,
              (read_result false 0 reached.0.node).1,
            )))
unfolding reached perform_all access dec_lt
read_result_lem_example = read_result_lem 6 (omega arith) reached.0 reached.1 4 7 false 0 refl

one_owner_example : ◌≡◌ {A = ℕ} 4 4
unfolding reached perform_all access dec_lt
one_owner_example = one_owner 6 (omega arith) reached.0 reached.1 read_handover 4 4 refl refl
