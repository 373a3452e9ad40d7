-- ===== src/Utils/Ring.antt =====
-- src/utils/queue/queue.hpp: the fixed-capacity queue, as a ring in an array.
pub mod Refine
use base_platform_zephyr_ble.Prelude.{
  ℕ, suc, ◌+◌, ◌-◌, ◌%◌, Bool, true, false, Option, none, some, List, set, get_or, replicate, ◌==◌,
  if◌then◌else◌,
}

-- `Queue<T, CAPACITY>`.
pub record Ring (T : Type 0) : Type 0 where
  pub storage : List T
  pub head : ℕ
  pub tail : ℕ
  pub count : ℕ

-- `blank` is `T{}`, with which the storage starts.
module _ {T : Type 0} (blank : T) (capacity : ℕ) where
  abbrev pub empty : Ring T
  empty = record { storage = replicate capacity blank; head = 0; tail = 0; count = 0 }

  abbrev pub next_index : ℕ → ℕ
  next_index i = (i + 1) % capacity

  abbrev pub is_empty : Ring T → Bool
  is_empty q = q.count == 0

  abbrev pub is_full : Ring T → Bool
  is_full q = q.count == capacity

  unfoldable pub push : T → Ring T → Ring T × Bool
  push item q = if is_full q then (q, false) else (
    record {
      storage = set q.storage q.tail item;
      head = q.head;
      tail = next_index q.tail;
      count = q.count + 1;
    },
    true,
  )

  -- The element that is copied out, or none for a result of false.
  unfoldable pub pop : Ring T → Ring T × Option T
  pop q = if is_empty q then (q, none) else (
    record q { head = next_index q.head; count = q.count - 1 },
    some (get_or q.storage q.head blank),
  )

  abbrev pub clear : Ring T → Ring T
  clear q = record q { head = 0; tail = 0; count = 0 }
