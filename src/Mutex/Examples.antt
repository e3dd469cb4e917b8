-- ===== src/Mutex/Examples.antt =====
-- The theorems about otel_shared_mutex in a run of two threads: a writer and a reader.
use native.Mathlib.Decide.{ℕ_discrete}
use opentelemetry_c_wrapper.Prelude.{ℕ, ◌≤◌, ◌≡◌, refl, arith}
use opentelemetry_c_wrapper.Mutex.Counts.{sum}
use opentelemetry_c_wrapper.Mutex.{Move, System, turn, Reach, start, later}
use opentelemetry_c_wrapper.Mutex.Invariant.{is_pending}
use opentelemetry_c_wrapper.Mutex.Exclusion.{
  lock-excludes, writers_pending-sum, Mobile, busy-can_move,
}
use opentelemetry_c_wrapper.Mutex.Preference.{
  is_in_flight, Waiting, here, goes_on, lock-stops_readers,
}

-- The state that a number of steps leads to.
record Run : Type 0 where
  last : System
  open last use *
  reach : Reach 2 last

-- Thread 1 reads, thread 0 waits to write.
abbrev contended : Run
unfolding ℕ_discrete
contended = record {
  last = _;
  reach =
      later
        (later
          (later (later start (turn 1 (omega arith) Move.ask))
            (turn 1 (omega arith) (Move.none_pending refl)))
          (turn 1 (omega arith) (Move.lock_shared refl)))
        (turn 0 (omega arith) Move.announce);
}

-- The reader has left, the writer writes.
abbrev released : Run
unfolding ℕ_discrete
released = record {
  last = _;
  reach = later contended.reach (turn 1 (omega arith) Move.unlock_shared);
}

abbrev written : Run
unfolding ℕ_discrete
written = record {
  last = _;
  reach = later released.reach (turn 0 (omega arith) (Move.lock_exclusive refl refl));
}

lock-excludes_example : ◌≡◌ {A = ℕ} 0 0
unfolding ℕ_discrete
lock-excludes_example =
    lock-excludes {s = written.last} (omega arith) written.reach 0 0 (omega arith) (omega arith)
      refl refl

writers_pending-sum_example : contended.lock.writers_pending ≡ sum is_pending 2 contended.pc
unfolding ℕ_discrete
writers_pending-sum_example = writers_pending-sum {s = contended.last} (omega arith) contended.reach

busy-can_move_example : Mobile 2 contended.last
unfolding ℕ_discrete
busy-can_move_example =
    busy-can_move {s = contended.last} (omega arith) contended.reach 0 (omega arith) (λ e. cc)

waiting : Waiting 2 0 contended.last released.last
unfolding ℕ_discrete
waiting = goes_on (here refl) (turn 1 (omega arith) Move.unlock_shared) refl

lock-stops_readers_example :
    (sum is_in_flight 2 released.pc ≤ sum is_in_flight 2 contended.pc)
    × (released.lock.shared ≤ sum is_in_flight 2 contended.pc)
unfolding ℕ_discrete
lock-stops_readers_example =
    lock-stops_readers {s = contended.last} {t = released.last} (omega arith) (omega arith)
      contended.reach waiting
