-- ===== src/ProcessQueue/Tests.antt =====
-- Runs of the queue and the theorems at concrete queues.
use gecko_os.Prelude.{
  ℕ, ◌<◌, ◌≡◌, refl, ◌⊎◌, true, false, none, some, [], ◌∷◌, ◌++◌, arith, replicate,
}
use gecko_os.ProcessQueue.{Queue, enqueue_into, enqueue, dequeue}
use gecko_os.ProcessQueue.Fifo.{count, waiting, IsRing, enqueue_into_lem, dequeue_lem}

-- Two processes, on either side of the ring's end.
abbrev wrapped : Queue ℕ
wrapped = record {
  slots = 8 ∷ 0 ∷ 0 ∷ 0 ∷ 0 ∷ 0 ∷ 0 ∷ 0 ∷ 0 ∷ 0 ∷ 0 ∷ 0 ∷ 0 ∷ 0 ∷ 0 ∷ 7 ∷ [];
  head = 15;
  tail = 1;
}

wrapped-IsRing : IsRing 0 wrapped
wrapped-IsRing = (refl, omega arith, omega arith)

wrapped_test : waiting 0 wrapped ≡ 7 ∷ 8 ∷ []
wrapped_test = refl

first_test : (enqueue {A = ℕ} (some (replicate 16 0)) none 5).0 ≡ true
unfolding enqueue enqueue_into
first_test = refl

no_memory_test : enqueue {A = ℕ} none none 5 ≡ (false, none)
unfolding enqueue
no_memory_test = refl

enqueue_into_lem_example :
    ((count 0 wrapped ≡ 15) × (enqueue_into wrapped 9 ≡ (false, wrapped)))
    ⊎ ((q' : Queue ℕ) × (count 0 wrapped < 15)
        × (enqueue_into wrapped 9 ≡ (true, q'))
        × IsRing 0 q'
        × (waiting 0 q' ≡ waiting 0 wrapped ++ (9 ∷ [])))
enqueue_into_lem_example = enqueue_into_lem 0 wrapped 9 wrapped-IsRing

dequeue_lem_example :
    ((waiting 0 wrapped ≡ []) × (dequeue 0 wrapped ≡ (none, wrapped)))
    ⊎ ((p : ℕ) × (q' : Queue ℕ) × (dequeue 0 wrapped ≡ (some p, q'))
        × IsRing 0 q'
        × (waiting 0 wrapped ≡ p ∷ waiting 0 q'))
dequeue_lem_example = dequeue_lem 0 wrapped wrapped-IsRing
