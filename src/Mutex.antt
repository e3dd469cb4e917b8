-- ===== src/Mutex.antt =====
-- otel_shared_mutex of src/include/util.h: std::shared_mutex with a count of pending writers, by
-- threads that take turns in any order. std::shared_mutex grants the exclusive lock when nobody
-- holds it, and the shared lock when no thread holds it exclusively.
pub mod Counts
pub mod Invariant
pub mod Exclusion
pub mod Preference
mod Examples
use opentelemetry_c_wrapper.Prelude.{ℕ, ◌+◌, ◌-◌, ◌%◌, ◌^◌, ◌<◌, ◌≡◌, ◌≢◌, Bool, true, false}
use opentelemetry_c_wrapper.Mutex.Counts.{update}

-- The members of the class: who holds mutex_, and writers_pending_, an int that wraps.
pub record Lock : Type 0 where
  pub exclusive : Bool
  pub shared : ℕ
  pub writers_pending : ℕ

-- The value of an int after fetch_add(1) and after fetch_sub(1), modulo 2 ^ 32.
abbrev pub fetch_add : ℕ → ℕ
fetch_add n = (n + 1) % 2 ^ 32

abbrev pub fetch_sub : ℕ → ℕ
fetch_sub n = (n + 2 ^ 32 - 1) % 2 ^ 32

-- Where a thread stands between two accesses to the lock.
pub data Pc : Type 0 where
  idle : Pc
  announced : Pc  -- lock(), before mutex_.lock()
  writing : Pc  -- after lock()
  left : Pc  -- unlock(), before fetch_sub
  testing : Pc  -- lock_shared(), before load()
  passed : Pc  -- load() was 0, before mutex_.lock_shared()
  queued : Pc  -- load() was not 0, before mutex_.lock()
  passing : Pc  -- between mutex_.lock() and mutex_.unlock()
  reading : Pc  -- after lock_shared()

-- One access of one thread. A thread that waits for mutex_ has no move until it is granted.
pub data Move (m : Lock) : Pc → Lock → Pc → Type 0 where
  announce : Move m idle (record m { writers_pending = fetch_add m.writers_pending }) announced
  lock_exclusive :
      m.exclusive ≡ false → m.shared ≡ 0 → Move m announced (record m { exclusive = true }) writing
  unlock : Move m writing (record m { exclusive = false }) left
  retire : Move m left (record m { writers_pending = fetch_sub m.writers_pending }) idle
  ask : Move m idle m testing
  none_pending : m.writers_pending ≡ 0 → Move m testing m passed
  some_pending : m.writers_pending ≢ 0 → Move m testing m queued
  lock_shared : m.exclusive ≡ false → Move m passed (record m { shared = m.shared + 1 }) reading
  divert :
      m.exclusive ≡ false → m.shared ≡ 0 → Move m queued (record m { exclusive = true }) passing
  retry : Move m passing (record m { exclusive = false }) testing
  unlock_shared : Move m reading (record m { shared = m.shared - 1 }) idle

-- Threads from `n` on do not exist: they stay idle.
pub record System : Type 0 where
  pub lock : Lock
  pub pc : ℕ → Pc

abbrev pub init : System
init = record {
  lock = record { exclusive = false; shared = 0; writers_pending = 0 };
  pc = λ _. idle;
}

pub data Step (n : ℕ) (s : System) : System → Type 0 where
  turn :
      (i : ℕ) {m : Lock} {p : Pc}
      → i < n
      → Move s.lock (s.pc i) m p
      → Step n s (record { lock = m; pc = update s.pc i p })

pub data Reach (n : ℕ) : System → Type 0 where
  start : Reach n init
  later : {s t : System} → Reach n s → Step n s t → Reach n t
