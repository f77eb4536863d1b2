-- ===== src/Paging/Tree.antt =====
-- The tree of page tables, and a step of the walk that extends it.
use gecko_os.Prelude.{
  ℕ, suc, ◌%◌, ◌^◌, ◌≤◌, ◌<◌, ◌≡◌, ◌≢◌, refl, ◌∙◌, sym, ap, inl, inr, Bool, true, false, ◌&&◌, some,
  List, [], ◌∷◌, arith, length, ◌==◌, if◌then◌else◌, Bool-cases, ≢→==false, ==-refl, ==_iff,
}
use gecko_os.Paging.{
  Tables, Memory, pte_is_present, pte_get_phys, table_entry, write, clear, alloc_table, descend,
}

-- A block that can become a table: its address is that of a page, and it is at no level yet.
pub record IsNew (level : ℕ → ℕ) (s : ℕ) : Type 0 where
  pub unused : level s ≡ 0
  pub not_null : s ≢ 0
  pub aligned : s % 4096 ≡ 0
  pub small : s < 2 ^ 52

abbrev pub IsApart : ℕ → List ℕ → Type 0
IsApart s [] = Unit {0}
IsApart s (x ∷ xs) = (x ≢ s) × IsApart s xs

abbrev pub AreNew : (level : ℕ → ℕ) → List ℕ → Type 0
AreNew level [] = Unit {0}
AreNew level (s ∷ ss) = IsNew level s × IsApart s ss × AreNew level ss

-- Tables are at levels 1 to 4, a present entry above level 1 leads one level down, and the blocks to
-- come are no tables and no two of them are the same.
pub record IsTree (level : ℕ → ℕ) (m : Memory) : Type 0 where
  pub down :
      (t i : ℕ)
      → 2 ≤ level t
      → pte_is_present (m.tables t i) ≡ true
      → suc (level (pte_get_phys (m.tables t i))) ≡ level t
  pub new : AreNew level m.supply

-- A step of the walk from the table `t` of level `l + 2`, through the entry `i`, to the table `u`.
pub record IsStep (l t i u : ℕ) (level level' : ℕ → ℕ) (m m' : Memory) : Type 0 where
  pub tree : IsTree level' m'
  pub below : level' u ≡ suc l
  pub there : pte_is_present (m'.tables t i) ≡ true
  pub leads : pte_get_phys (m'.tables t i) ≡ u
  pub same_level : (q : ℕ) → 0 < level q → level' q ≡ level q
  pub same : (q j : ℕ) → 0 < level q → q ≢ t → m'.tables q j ≡ m.tables q j

pub descend-there :
    (create : Bool) (t i u : ℕ) (m : Memory)
    → pte_is_present (m.tables t i) ≡ true
    → pte_get_phys (m.tables t i) ≡ u
    → descend create t i m ≡ (some u, m)
unfolding descend
descend-there create t i u m there leads = rw (there, leads) refl

-- The levels with the new table `s` at the level `l`.
abbrev placed : (s l : ℕ) (level : ℕ → ℕ) → ℕ → ℕ
placed s l level q = if q == s then l else level q

placed-other : (s l q : ℕ) (level : ℕ → ℕ) → q ≢ s → placed s l level q ≡ level q
placed-other s l q level other = rw (≢→==false q s other) refl

AreNew-placed :
    (s l : ℕ) (level : ℕ → ℕ) (ss : List ℕ)
    → IsApart s ss
    → AreNew level ss
    → AreNew (placed s l level) ss
AreNew-placed s l level [] apart new = tt
AreNew-placed s l level (x ∷ xs) (other, apart) (here, distinct, new) = (
  record {
    unused = placed-other s l x level other ∙ here.unused;
    not_null = here.not_null;
    aligned = here.aligned;
    small = here.small;
  },
  distinct,
  AreNew-placed s l level xs apart new,
)

table_entry-back : (s : ℕ) → s % 4096 ≡ 0 → s < 2 ^ 52 → pte_get_phys (table_entry s) ≡ s
table_entry-back s aligned small = omega arith

-- The tables with the new table `s` behind the entry `i` of `t`.
abbrev linked : (t i s : ℕ) → Tables → Tables
linked t i s tables = write t i (table_entry s) (clear s tables)

module _ (l t i s : ℕ) (level : ℕ → ℕ) (tables : Tables) (ss : List ℕ)
    (tree : IsTree level (record { tables = tables; supply = s ∷ ss }))
    (at : level t ≡ suc (suc l)) where
  table-IsNew : IsNew level s
  table-IsNew = tree.new.0

  differs : (q : ℕ) → 0 < level q → q ≢ s
  differs q pos e = absurd (omega (arith, ap level e, table-IsNew.unused, pos))

  linked-entry : linked t i s tables t i ≡ table_entry s
  linked-entry = rw (==-refl t, ==-refl i) refl

  linked-new : (j : ℕ) → linked t i s tables s j ≡ 0
  linked-new j =
      let other : s ≢ t = λ e. differs t (omega (arith, at)) (sym e) in
      rw (≢→==false s t other, ==-refl s) refl

  linked-same :
      (q j : ℕ) → q ≢ s → (q == t && j == i) ≡ false → linked t i s tables q j ≡ tables q j
  linked-same q j other test = rw (test, ≢→==false q s other) refl

  linked-down :
      (q j : ℕ)
      → 2 ≤ placed s (suc l) level q
      → pte_is_present (linked t i s tables q j) ≡ true
      → suc (placed s (suc l) level (pte_get_phys (linked t i s tables q j)))
        ≡ placed s (suc l) level q
  linked-down q j high there = elim (Bool-cases (q == s)) [
    | inl e ↦
        let blank : linked t i s tables q j ≡ 0 =
          ap (λ p. linked t i s tables p j) ((==_iff q s).0 e) ∙ linked-new j in
        absurd (ground (arith, rw blank at there))
    | inr ne ↦
        let other : q ≢ s = λ e. absurd (ground (arith, ne, e)) in
        let level_q = placed-other s (suc l) q level other in
        elim (Bool-cases (q == t && j == i)) [
          | inl here ↦
              let q_t : q ≡ t = (==_iff q t).0 (ground (arith, here)) in
              let j_i : j ≡ i = (==_iff j i).0 (ground (arith, here)) in
              let entry : linked t i s tables q j ≡ table_entry s =
                ap (λ p. linked t i s tables p j) q_t
                ∙ ap (λ k. linked t i s tables t k) j_i
                ∙ linked-entry in
              let target : pte_get_phys (linked t i s tables q j) ≡ s =
                ap pte_get_phys entry ∙ table_entry-back s table-IsNew.aligned table-IsNew.small in
              let level_s : placed s (suc l) level s ≡ suc l = rw (==-refl s) refl in
              ap (λ p. suc (placed s (suc l) level p)) target
              ∙ ap suc level_s
              ∙ sym (level_q ∙ ap level q_t ∙ at)
          | inr there' ↦
              let entry = linked-same q j other there' in
              let led : suc (level (pte_get_phys (tables q j))) ≡ level q =
                tree.down q j (omega (arith, high, level_q)) (rw entry at there) in
              let p_other : pte_get_phys (tables q j) ≢ s =
                differs (pte_get_phys (tables q j)) (omega (arith, led, high, level_q)) in
              ap (λ w. suc (placed s (suc l) level (pte_get_phys w))) entry
              ∙ ap suc (placed-other s (suc l) (pte_get_phys (tables q j)) level p_other)
              ∙ led
              ∙ sym level_q
        ]
  ]

  linked-IsStep :
      IsStep l t i s level
        (placed s (suc l) level)
        (record { tables = tables; supply = s ∷ ss })
        (record { tables = linked t i s tables; supply = ss })
  linked-IsStep = record {
    tree = record {
      down = linked-down;
      new = AreNew-placed s (suc l) level ss tree.new.1 tree.new.2;
    };
    below = rw (==-refl s) refl;
    there = rw linked-entry (ground arith);
    leads = ap pte_get_phys linked-entry ∙ table_entry-back s table-IsNew.aligned table-IsNew.small;
    same_level = λ q pos. placed-other s (suc l) q level (differs q pos);
    same = λ q j pos other. linked-same q j (differs q pos) (ground (arith, ≢→==false q t other));
  }

-- A step of the walk ends at a table, with a block fewer to come if it had to make that.
pub descend-IsStep :
    (k l t i : ℕ) (level : ℕ → ℕ) (tables : Tables) (supply : List ℕ)
    → IsTree level (record { tables = tables; supply = supply })
    → level t ≡ suc (suc l)
    → suc k ≤ length supply
    → (u : ℕ) × (level' : ℕ → ℕ) × (m' : Memory) × (descend true t i
          (record { tables = tables; supply = supply })
        ≡ (some u, m'))
      × IsStep l t i u level level' (record { tables = tables; supply = supply }) m'
      × (k ≤ length m'.supply)
unfolding descend alloc_table
descend-IsStep k l t i level tables [] tree at enough = absurd (omega arith)
descend-IsStep k l t i level tables (s ∷ ss) tree at enough =
    elim (Bool-cases (pte_is_present (tables t i))) [
      | inl there ↦ (
        pte_get_phys (tables t i),
        level,
        record { tables = tables; supply = s ∷ ss },
        rw there refl,
        record {
          tree = tree;
          below = omega (arith, tree.down t i (omega (arith, at)) there, at);
          there = there;
          leads = refl;
          same_level = λ q pos. refl;
          same = λ q j pos other. refl;
        },
        omega arith,
      )
      | inr missing ↦
          let fresh = tree.new.0 in
          (
            s,
            placed s (suc l) level,
            record { tables = linked t i s tables; supply = ss },
            rw (missing, ≢→==false s 0 fresh.not_null, table_entry-back s fresh.aligned fresh.small)
                refl,
            linked-IsStep l t i s level tables ss tree at,
            omega arith,
          )
    ]
