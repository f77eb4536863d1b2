-- ===== src/Paging/Lookup.antt =====
-- What a mapping is worth: `vmm_get_phys` finds the page that `vmm_map` has mapped.
use gecko_os.Prelude.{
  ℕ, suc, ◌+◌, ◌%◌, ◌^◌, ◌≤◌, ◌<◌, ◌≡◌, ◌≢◌, refl, ◌∙◌, sym, ap, true, false, Option, none, some,
  if◌then◌else◌, arith, length, ≢→==false, ==-refl,
}
use gecko_os.Paging.{
  Memory, pte_is_present, pte_get_phys, entry_flags, write, follow, write_pte, descend, get_pte,
  vmm_map, vmm_get_phys, pml4_index, pdpt_index, pd_index, pt_index,
}
use gecko_os.Paging.Tree.{IsTree, IsStep, descend-there, descend-IsStep}

-- The entry of a page.
entry-there : (phys flags : ℕ) → pte_is_present (pte_get_phys phys + entry_flags flags) ≡ true
entry-there phys flags = ground arith

entry-phys :
    (phys flags : ℕ)
    → phys % 4096 ≡ 0
    → phys < 2 ^ 52
    → pte_get_phys (pte_get_phys phys + entry_flags flags) ≡ phys
entry-phys phys flags aligned small = omega arith

-- A write into a table at level 1 keeps the tree.
written-IsTree :
    (level : ℕ → ℕ) (m : Memory) (u i e : ℕ)
    → IsTree level m
    → level u ≡ 1
    → IsTree level (record m { tables = write u i e m.tables })
written-IsTree level m u i e tree at = record {
  down = λ t j high there.
      let other : t ≢ u = λ same. absurd (omega (arith, ap level same, at, high)) in
      let entry : write u i e m.tables t j ≡ m.tables t j = rw (≢→==false t u other) refl in
      ap (λ w. suc (level (pte_get_phys w))) entry ∙ tree.down t j high (rw entry at there);
  new = tree.new;
}

-- Tables at different levels are different.
apart : (level : ℕ → ℕ) (a b la lb : ℕ) → level a ≡ la → level b ≡ lb → la ≢ lb → a ≢ b
apart level a b la lb at_a at_b other e = other (sym at_a ∙ ap level e ∙ at_b)

-- The memory after a mapping, and the levels of its tables.
abbrev pub IsMapped : (virt phys k pml4 : ℕ) (level : ℕ → ℕ) → Memory → Type 0
IsMapped virt phys k pml4 level m =
    IsTree level m × (level pml4 ≡ 4) × (k ≤ length m.supply) × (vmm_get_phys pml4 virt m ≡ phys)

module _ (virt pml4 u3 u2 u1 e : ℕ) (l1 l2 l3 l4 : ℕ → ℕ) (m1 m2 m3 m4 : Memory) (at : l1 pml4 ≡ 4)
    (s1 : IsStep 2 pml4 (pml4_index virt) u3 l1 l2 m1 m2)
    (s2 : IsStep 1 u3 (pdpt_index virt) u2 l2 l3 m2 m3)
    (s3 : IsStep 0 u2 (pd_index virt) u1 l3 l4 m3 m4) where
  abbrev after : Memory
  after = record m4 { tables = write u1 (pt_index virt) e m4.tables }

  root2 : l2 pml4 ≡ 4
  root2 = s1.same_level pml4 (omega (arith, at)) ∙ at

  root3 : l3 pml4 ≡ 4
  root3 = s2.same_level pml4 (omega (arith, root2)) ∙ root2

  root4 : l4 pml4 ≡ 4
  root4 = s3.same_level pml4 (omega (arith, root3)) ∙ root3

  third3 : l3 u3 ≡ 3
  third3 = s2.same_level u3 (omega (arith, s1.below)) ∙ s1.below

  third4 : l4 u3 ≡ 3
  third4 = s3.same_level u3 (omega (arith, third3)) ∙ third3

  second4 : l4 u2 ≡ 2
  second4 = s3.same_level u2 (omega (arith, s2.below)) ∙ s2.below

  kept : (q j : ℕ) → 2 ≤ l4 q → after.tables q j ≡ m4.tables q j
  kept q j high =
      let other : q ≢ u1 = λ same. absurd (omega (arith, ap l4 same, s3.below, high)) in
      rw (≢→==false q u1 other) refl

  root_entry : after.tables pml4 (pml4_index virt) ≡ m2.tables pml4 (pml4_index virt)
  root_entry =
      kept pml4 (pml4_index virt) (omega (arith, root4))
      ∙ s3.same pml4 (pml4_index virt) (omega (arith, root3))
          (apart l3 pml4 u2 4 2 root3 s2.below λ h. absurd (omega (arith, h)))
      ∙ s2.same pml4 (pml4_index virt) (omega (arith, root2))
          (apart l2 pml4 u3 4 3 root2 s1.below λ h. absurd (omega (arith, h)))

  third_entry : after.tables u3 (pdpt_index virt) ≡ m3.tables u3 (pdpt_index virt)
  third_entry =
      kept u3 (pdpt_index virt) (omega (arith, third4))
      ∙ s3.same u3 (pdpt_index virt) (omega (arith, third3))
          (apart l3 u3 u2 3 2 third3 s2.below λ h. absurd (omega (arith, h)))

  second_entry : after.tables u2 (pd_index virt) ≡ m4.tables u2 (pd_index virt)
  second_entry = kept u2 (pd_index virt) (omega (arith, second4))

  -- A walk that makes no table ends at the table of the page.
  walk_again : get_pte pml4 virt false after ≡ (some u1, after)
  unfolding get_pte
  walk_again =
      let there1 = ap pte_is_present root_entry ∙ s1.there in
      let leads1 = ap pte_get_phys root_entry ∙ s1.leads in
      let there2 = ap pte_is_present third_entry ∙ s2.there in
      let leads2 = ap pte_get_phys third_entry ∙ s2.leads in
      let there3 = ap pte_is_present second_entry ∙ s3.there in
      let leads3 = ap pte_get_phys second_entry ∙ s3.leads in
      ap
        (λ r.
          follow (λ t m. descend false t (pd_index virt) m)
            (follow (λ t m. descend false t (pdpt_index virt) m) r))
        (descend-there false pml4 (pml4_index virt) u3 after there1 leads1)
      ∙ ap (λ r. follow (λ t m. descend false t (pd_index virt) m) r)
          (descend-there false u3 (pdpt_index virt) u2 after there2 leads2)
      ∙ descend-there false u2 (pd_index virt) u1 after there3 leads3

  found_again : pte_is_present e ≡ true → vmm_get_phys pml4 virt after ≡ pte_get_phys e
  unfolding vmm_get_phys
  found_again there =
      let entry : after.tables u1 (pt_index virt) ≡ e =
        rw (==-refl u1, ==-refl (pt_index virt)) refl in
      let read : ℕ → ℕ = λ w. if pte_is_present w then pte_get_phys w else 0 in
      let at_table : Option ℕ × Memory → ℕ =
        λ r. elim r.0 [ none ↦ 0 | some pt ↦ read (after.tables pt (pt_index virt)) ] in
      ap at_table walk_again ∙ ap read entry ∙ rw there refl

-- In a tree of tables whose root is at level 4, with at least `k + 3` blocks to come, for a physical address of a page
-- below 2^52: `vmm_map` succeeds, and in the memory that it leaves `vmm_get_phys` of the virtual address is the
-- physical one. That memory is again a tree with the same root, and `k` blocks are left for the next mapping.
pub vmm_get_phys-vmm_map :
    (k pml4 phys virt flags : ℕ) (level : ℕ → ℕ) (m : Memory)
    → IsTree level m
    → level pml4 ≡ 4
    → k + 3 ≤ length m.supply
    → phys % 4096 ≡ 0
    → phys < 2 ^ 52
    → (level' : ℕ → ℕ) × (m' : Memory) × (vmm_map pml4 phys virt flags m ≡ (true, m'))
      × IsMapped virt phys k pml4 level' m'
unfolding vmm_map get_pte
vmm_get_phys-vmm_map k pml4 phys virt flags level m tree at enough aligned small =
    let e = pte_get_phys phys + entry_flags flags in
    let (u3, l2, m2, d1, s1, n1) =
      descend-IsStep (suc (suc k)) 2 pml4 (pml4_index virt) level m.tables m.supply tree at
        (omega arith) in
    let (u2, l3, m3, d2, s2, n2) =
      descend-IsStep (suc k) 1 u3 (pdpt_index virt) l2 m2.tables m2.supply s1.tree s1.below n1 in
    let (u1, l4, m4, d3, s3, n3) =
      descend-IsStep k 0 u2 (pd_index virt) l3 m3.tables m3.supply s2.tree s2.below n2 in
    (
      l4,
      after virt pml4 u3 u2 u1 e level l2 l3 l4 m m2 m3 m4 at s1 s2 s3,
      (ap
            (λ r. write_pte virt e (
              follow (λ t m. descend true t (pd_index virt) m)
                (follow (λ t m. descend true t (pdpt_index virt) m) r)))
            d1
          ∙ ap (λ r. write_pte virt e (follow (λ t m. descend true t (pd_index virt) m) r)) d2
          ∙ ap (λ r. write_pte virt e r) d3),
      (
        written-IsTree l4 m4 u1 (pt_index virt) e s3.tree s3.below,
        root4 virt pml4 u3 u2 u1 e level l2 l3 l4 m m2 m3 m4 at s1 s2 s3,
        n3,
        found_again virt pml4 u3 u2 u1 e level l2 l3 l4 m m2 m3 m4 at s1 s2 s3
              (entry-there phys flags)
            ∙ entry-phys phys flags aligned small,
      ),
    )
