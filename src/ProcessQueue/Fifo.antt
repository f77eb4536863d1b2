-- ===== src/ProcessQueue/Fifo.antt =====
-- The ring is a first-in first-out queue of at most 15 processes.
use gecko_os.Prelude.{
  ℕ, zero, suc, ◌+◌, ◌-◌, ◌%◌, ◌≤◌, ◌<◌, ◌≡◌, ◌≢◌, refl, ◌∙◌, sym, ap, true, false, none, some,
  List, [], ◌∷◌, ◌++◌, arith, ◌==◌, length, set, get_or, length-set, get_or-set_self, get_or-set_ne,
  Bool-cases, subst, ==_iff, ==false→≢, ◌⊎◌, inl, inr,
}
use gecko_os.ProcessQueue.{Queue, max_processes, enqueue_into, dequeue}

-- How the number of places in use follows the indices.
grown_count :
    (h t : ℕ)
    → h < 16
    → t < 16
    → (t + 1) % 16 ≢ h
    → ((t + 1) % 16 + 16 - h) % 16 ≡ suc ((t + 16 - h) % 16)
grown_count h t hh ht room = omega arith

room_count : (h t : ℕ) → h < 16 → t < 16 → (t + 1) % 16 ≢ h → (t + 16 - h) % 16 < 15
room_count h t hh ht room = omega arith

full_count : (h t : ℕ) → h < 16 → t < 16 → (t + 1) % 16 ≡ h → (t + 16 - h) % 16 ≡ 15
full_count h t hh ht full = omega arith

last_place : (h t : ℕ) → h < 16 → t < 16 → (h + (t + 16 - h) % 16) % 16 ≡ t
last_place h t hh ht = omega arith

empty_count : (h t : ℕ) → h < 16 → h ≡ t → (t + 16 - h) % 16 ≡ 0
empty_count h t hh e = omega arith

rest_count :
    (h t : ℕ) → h < 16 → t < 16 → h ≢ t → (t + 16 - h) % 16 ≡ suc ((t + 16 - (h + 1) % 16) % 16)
rest_count h t hh ht apart = omega arith

small : (p : ℕ) → p < max_processes → (p + 0) % max_processes ≡ p
small p h = omega arith

shift : (p n : ℕ) → ((p + 1) % max_processes + n) % max_processes ≡ (p + suc n) % max_processes
shift p n = omega arith

module _ {ℓ} {A : Type ℓ} (default : A) where
  -- The `n` entries from a place on.
  abbrev pub entries : (n place : ℕ) → List A → List A
  entries zero place slots = []
  entries (suc n) place slots =
      get_or slots place default ∷ entries n ((place + 1) % max_processes) slots

  abbrev pub count : Queue A → ℕ
  count q = (q.tail + max_processes - q.head) % max_processes

  -- The queue as a list, the oldest first.
  abbrev pub waiting : Queue A → List A
  waiting q = entries (count q) q.head q.slots

  -- Indices within the ring.
  abbrev pub IsRing : Queue A → Type 0
  IsRing q = (length q.slots ≡ max_processes) × (q.head < max_processes) × (q.tail < max_processes)

  entries-set :
      (n place i : ℕ) (slots : List A) (v : A)
      → place < max_processes
      → i < max_processes
      → n ≤ (i + max_processes - place) % max_processes
      → entries n place (set slots i v) ≡ entries n place slots
  entries-set zero place i slots v hp hi far = refl
  entries-set (suc n) place i slots v hp hi far =
      rw
        (
          get_or-set_ne slots i place v default (λ e. absurd (omega (arith, e))),
          entries-set n ((place + 1) % max_processes) i slots v (omega arith) hi (omega arith),
        )
        refl

  entries_last :
      (n place : ℕ) (slots : List A)
      → place < max_processes
      → entries (suc n) place slots
        ≡ entries n place slots ++ (get_or slots ((place + n) % max_processes) default ∷ [])
  entries_last zero place slots hp = rw (small place hp) refl
  entries_last (suc n) place slots hp =
      ap (λ t. get_or slots place default ∷ t)
        (entries_last n ((place + 1) % max_processes) slots (omega arith)
          ∙ ap (λ i. entries n ((place + 1) % max_processes) slots ++ (get_or slots i default ∷ []))
              (shift place n))

  added : (q : Queue A) (v : A) → Queue A
  added q v = record q { slots = set q.slots q.tail v; tail = (q.tail + 1) % max_processes }

  added-waiting :
      (q : Queue A) (v : A)
      → IsRing q
      → (q.tail + 1) % max_processes ≢ q.head
      → waiting (added q v) ≡ waiting q ++ (v ∷ [])
  unfolding added
  added-waiting q v (len, hh, ht) room =
      let n = count q in
      let more : ((q.tail + 1) % max_processes + max_processes - q.head) % max_processes ≡ suc n =
        grown_count q.head q.tail hh ht room in
      let last : (q.head + n) % max_processes ≡ q.tail = last_place q.head q.tail hh ht in
      ap (λ k. entries k q.head (set q.slots q.tail v)) more
      ∙ entries_last n q.head (set q.slots q.tail v) hh
      ∙ rw
          (
            last,
            get_or-set_self q.slots q.tail v default (subst (λ k. q.tail < k) (sym len) ht),
            entries-set n q.head q.tail q.slots v hh ht (omega arith),
          )
          refl

  -- For a ring within its bounds: with 15 processes waiting `enqueue` fails and changes nothing, and
  -- with fewer it succeeds, puts the process behind the others and keeps the ring within its bounds.
  pub enqueue_into_lem :
      (q : Queue A) (v : A)
      → IsRing q
      → ((count q ≡ 15) × (enqueue_into q v ≡ (false, q)))
        ⊎ ((q' : Queue A) × (count q < 15)
            × (enqueue_into q v ≡ (true, q'))
            × IsRing q'
            × (waiting q' ≡ waiting q ++ (v ∷ [])))
  unfolding enqueue_into added
  enqueue_into_lem q v (len, hh, ht) = elim (Bool-cases ((q.tail + 1) % max_processes == q.head)) [
    | inl full ↦ inl (
      full_count q.head q.tail hh ht ((==_iff ((q.tail + 1) % max_processes) q.head).0 full),
      rw full refl,
    )
    | inr room ↦
        let apart = ==false→≢ ((q.tail + 1) % max_processes) q.head room in
        inr (
          added q v,
          room_count q.head q.tail hh ht apart,
          rw room refl,
          (length-set q.slots q.tail v ∙ len, hh, omega arith),
          added-waiting q v (len, hh, ht) apart,
        )
  ]

  -- For a ring within its bounds: `dequeue` gives NULL and changes nothing if nothing waits;
  -- otherwise it gives the process that has waited longest, leaves the others in their order and
  -- keeps the ring within its bounds.
  pub dequeue_lem :
      (q : Queue A)
      → IsRing q
      → ((waiting q ≡ []) × (dequeue default q ≡ (none, q)))
        ⊎ ((p : A) × (q' : Queue A) × (dequeue default q ≡ (some p, q'))
            × IsRing q'
            × (waiting q ≡ p ∷ waiting q'))
  unfolding dequeue
  dequeue_lem q (len, hh, ht) = elim (Bool-cases (q.head == q.tail)) [
    | inl none_left ↦ inl (
      ap (λ n. entries n q.head q.slots)
          (empty_count q.head q.tail hh ((==_iff q.head q.tail).0 none_left)),
      rw none_left refl,
    )
    | inr some_left ↦ inr (
      get_or q.slots q.head default,
      record q { head = (q.head + 1) % max_processes },
      rw some_left refl,
      (len, omega arith, ht),
      ap (λ n. entries n q.head q.slots)
          (rest_count q.head q.tail hh ht (==false→≢ q.head q.tail some_left)),
    )
  ]
