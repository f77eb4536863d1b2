-- ===== src/ProcessQueue.antt =====
-- The queue of kernel/process/process.c: a ring of MAX_PROCESSES places, one of which stays free.
-- A process is a value of any type; the queue's pointer is an `Option`.
pub mod Fifo
mod Tests
use gecko_os.Prelude.{
  ℕ, zero, suc, ◌+◌, ◌%◌, Bool, true, false, Option, none, some, List, [], ◌∷◌, ◌==◌, if◌then◌else◌,
  set, get_or,
}

abbrev pub max_processes : ℕ
max_processes = 16

pub record Queue {ℓ} (A : Type ℓ) : Type ℓ where
  pub slots : List A
  pub head : ℕ
  pub tail : ℕ

module _ {ℓ} {A : Type ℓ} where
  -- The part of `enqueue` behind the allocation; `true` is the result 0, `false` is -1.
  unfoldable pub enqueue_into : Queue A → A → Bool × Queue A
  enqueue_into q v =
      let next = (q.tail + 1) % max_processes in
      if next == q.head
      then (false, q)
      else (true, record q { slots = set q.slots q.tail v; tail = next })

  -- `fresh` is what `kmalloc` gives, `none` for NULL, with whatever it holds as the places.
  unfoldable pub enqueue :
      (fresh : Option (List A)) → Option (Queue A) → A → Bool × Option (Queue A)
  enqueue fresh (some q) v = let (ok, q') = enqueue_into q v in (ok, some q')
  enqueue none none v = (false, none)
  enqueue (some places) none v =
      let (ok, q') = enqueue_into (record { slots = places; head = 0; tail = 0 }) v in (ok, some q')

  -- `none` is NULL; the value read beyond the places is `default`.
  unfoldable pub dequeue : (default : A) → Queue A → Option A × Queue A
  dequeue default q =
      if q.head == q.tail
      then (none, q)
      else (some (get_or q.slots q.head default), record q { head = (q.head + 1) % max_processes })
