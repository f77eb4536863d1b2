-- ===== src/Heap/Tests.antt =====
-- Runs of the heap and the theorems at concrete heaps.
use gecko_os.Prelude.{ℕ, ◌≡◌, refl, true, false, Option, none, some, arith}
use gecko_os.Heap.{
  Block, Heap, kalloc_init, find_free_block, create_block, split_block, serve, kmalloc, kfree,
}
use gecko_os.Heap.Find.{IsChain}
use gecko_os.Heap.Malloc.{IsArena, IsAnswer, kmalloc-IsAnswer}
use gecko_os.Heap.Free.{kfree-IsChain, kfree-loop}

abbrev zeroed : ℕ → Block
zeroed p = record { size = 0; free = false; next = 0 }

-- The heap after `kalloc_init`.
abbrev initial : Heap
initial = record { heap_ptr = 2097152; heap_end = 5242880; free_list_head = 0; store = zeroed }

initial_test : kalloc_init (record initial { heap_ptr = 0; free_list_head = 7 }) ≡ initial
unfolding kalloc_init
initial_test = refl

-- The result's pointer, 0 where the search has not ended.
abbrev pointer : Option (ℕ × Heap) → ℕ
pointer r = elim r [ none ↦ 0 | some (p, h) ↦ p ]

abbrev after : Option (ℕ × Heap) → Heap
after r = elim r [ none ↦ initial | some (p, h) ↦ h ]

kmalloc_test : pointer (kmalloc 1 13 initial) ≡ 2097168
unfolding kmalloc serve find_free_block create_block
kmalloc_test = refl

kmalloc_full_test : pointer (kmalloc 1 3145728 initial) ≡ 0
unfolding kmalloc serve find_free_block create_block
kmalloc_full_test = refl

-- A freed block of 64 bytes is split for a request of 8.
abbrev one_free : Heap
one_free = record initial {
  heap_ptr = 2097232;
  free_list_head = 2097152;
  store = λ p. record { size = 64; free = true; next = 0 };
}

split_test :
    (after (kmalloc 2 8 one_free)).store 2097176 ≡ record { size = 40; free = true; next = 0 }
unfolding kmalloc serve find_free_block split_block
split_test = refl

initial-IsArena : IsArena initial
initial-IsArena = record {
  aligned = refl;
  end_aligned = refl;
  not_null = omega arith;
  below = omega arith;
  small = omega arith;
}

one_free-IsArena : IsArena one_free
one_free-IsArena = record {
  aligned = refl;
  end_aligned = refl;
  not_null = omega arith;
  below = omega arith;
  small = omega arith;
}

kmalloc-IsAnswer_example :
    (ptr : ℕ) × (h' : Heap) × (kmalloc 2 13 one_free ≡ some (ptr, h'))
    × IsArena h'
    × IsAnswer 1 16 ptr one_free h'
kmalloc-IsAnswer_example =
    kmalloc-IsAnswer 1 13 one_free (λ e. absurd (omega arith), refl) one_free-IsArena (omega arith)

kfree-IsChain_example :
    IsChain 2 (kfree 2097200 one_free).free_list_head (kfree 2097200 one_free).store
    × (((kfree 2097200 one_free).store (kfree 2097200 one_free).free_list_head).free ≡ true)
kfree-IsChain_example =
    kfree-IsChain 1 2097200 one_free (λ e. absurd (omega arith), refl)
      (λ e. absurd (omega arith), tt) (omega arith)

-- A block that was allocated, freed and allocated again.
abbrev reused : Heap
reused = after (kmalloc 2 8 (kfree 2097168 (after (kmalloc 1 8 initial))))

reused_test : (reused.free_list_head ≡ 2097152) × ((reused.store 2097152).size ≡ 8)
unfolding kmalloc kfree serve find_free_block create_block split_block
reused_test = (refl, refl)

abbrev head_used : Heap
head_used = record initial {
  heap_ptr = 2097176;
  free_list_head = 2097152;
  store = λ p. record { size = 8; free = false; next = 0 };
}

kfree-loop_example :
    find_free_block 5 16 (kfree 2097168 head_used).free_list_head (kfree 2097168 head_used).store
    ≡ none
kfree-loop_example = kfree-loop 2097168 16 head_used (omega arith) refl (omega arith) 5
