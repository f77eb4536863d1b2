-- ===== src/PhysicalMem/Boot/Tags.antt =====
-- The loops over the Multiboot2 tags: what they keep, and that they end.
use gecko_os.Prelude.{
  ℕ, zero, suc, ◌+◌, ◌-◌, ◌*◌, ◌/◌, ◌^◌, ◌≤◌, ◌<◌, ◌≡◌, refl, ◌∙◌, inl, inr, Option, none, some,
  arith, ltb, ◌==◌, ◌≢◌, Bool-cases, not, ◌&&◌, ltb→lt, ==_iff,
}
use gecko_os.Prelude.Bits.{align_down8}
use gecko_os.PhysicalMem.{Pmm, to_u32, to_u64, free_region}
use gecko_os.PhysicalMem.Bitmap.{IsValid}
use gecko_os.PhysicalMem.Regions.{IsOver, free_region-IsReleased}
use gecko_os.PhysicalMem.Boot.{
  Ram, tag_type, tag_size, mmap_entry_size, entry_base_addr, entry_length, entry_type, tag_type_end,
  tag_type_mmap, memory_available, free_entries, free_tag, free_tags, next_tag,
}

-- `t` is `s` after some releases and reservations.
pub record IsKept (s t : Pmm) : Type 0 where
  pub valid : IsValid t
  pub max : t.max_blocks ≡ s.max_blocks
  pub counted : (d : ℕ) → d ≤ 1 → IsOver d s → IsOver d t

pub IsKept-refl : {s : Pmm} → IsValid s → IsKept s s
IsKept-refl v = record { valid = v; max = refl; counted = λ d h o. o }

pub IsKept-trans : {s t u : Pmm} → IsKept s t → IsKept t u → IsKept s u
IsKept-trans f g = record {
  valid = g.valid;
  max = g.max ∙ f.max;
  counted = λ d h o. g.counted d h (f.counted d h o);
}

pub free_region-IsKept : (s : Pmm) (base size : ℕ) → IsValid s → IsKept s (free_region s base size)
free_region-IsKept s base size v =
    let r = free_region-IsReleased s base size v in
    record { valid = r.valid; max = r.max; counted = r.counted }

-- What a loop returns, if it returns.
abbrev pub Keeps : Pmm → Option Pmm → Type 0
Keeps s none = Unit {0}
Keeps s (some t) = IsKept s t

Keeps-after : (s t : Pmm) (o : Option Pmm) → IsKept s t → Keeps t o → Keeps s o
Keeps-after s t none f g = tt
Keeps-after s t (some u) f g = IsKept-trans f g

free_entries-Keeps :
    (fuel : ℕ) (m : Ram) (limit size entry : ℕ) (s : Pmm)
    → IsValid s
    → Keeps s (free_entries fuel m limit size entry s)
unfolding free_entries
free_entries-Keeps zero m limit size entry s v = tt
free_entries-Keeps (suc fuel) m limit size entry s v = elim (Bool-cases (ltb entry limit)) [
  | inr out ↦ rw out (IsKept-refl v)
  | inl more ↦ elim (Bool-cases (entry_type m entry == memory_available)) [
    | inl available ↦
        let s' = free_region s (entry_base_addr m entry) (entry_length m entry) in
        let k = free_region-IsKept s (entry_base_addr m entry) (entry_length m entry) v in
        rw (more, available)
          (Keeps-after s s' _ k
            (free_entries-Keeps fuel m limit size (to_u64 (entry + size)) s' k.valid))
    | inr reserved ↦
        rw (more, reserved) (free_entries-Keeps fuel m limit size (to_u64 (entry + size)) s v)
  ]
]

pub free_tag-Keeps :
    (fuel : ℕ) (m : Ram) (tag : ℕ) (s : Pmm) → IsValid s → Keeps s (free_tag fuel m tag s)
unfolding free_tag
free_tag-Keeps fuel m tag s v = elim (Bool-cases (tag_type m tag == tag_type_mmap)) [
  | inl map ↦ rw map (free_entries-Keeps fuel m _ _ _ s v)
  | inr other ↦ rw other (IsKept-refl v)
]

pub free_tags-Keeps :
    (fuel : ℕ) (m : Ram) (mbi_end tag : ℕ) (s : Pmm)
    → IsValid s
    → Keeps s (free_tags fuel m mbi_end tag s)
unfolding free_tags
free_tags-Keeps zero m mbi_end tag s v = tt
free_tags-Keeps (suc fuel) m mbi_end tag s v =
    elim (Bool-cases (ltb tag mbi_end && not (tag_type m tag == tag_type_end))) [
      | inr out ↦ rw out (IsKept-refl v)
      | inl more ↦ rw more (
          go (free_tags-Keeps fuel m mbi_end (next_tag m tag)) (free_tag fuel m tag s)
            (free_tag-Keeps fuel m tag s v))
    ]
  where
    go :
        ((s' : Pmm) → IsValid s' → Keeps s' (free_tags fuel m mbi_end (next_tag m tag) s'))
        → (o : Option Pmm) → Keeps s o
        → Keeps s (elim o [ none ↦ none | some s' ↦ free_tags fuel m mbi_end (next_tag m tag) s' ])
    go later none k = tt
    go later (some s') k = Keeps-after s s' _ k (later s' k.valid)

-- The addresses that the loop over the tags comes to.
pub data IsTag (m : Ram) (mbi_end first : ℕ) : ℕ → Type 0 where
  first_tag : IsTag m mbi_end first first
  later_tag :
      {tag : ℕ}
      → IsTag m mbi_end first tag
      → tag < mbi_end
      → tag_type m tag ≢ tag_type_end
      → IsTag m mbi_end first (next_tag m tag)

-- A boot information structure whose tags lie inside it and have a size, and whose memory map
-- entries have a size.
pub record IsWellFormed (m : Ram) (mbi_end first : ℕ) : Type 0 where
  pub end : mbi_end < 2 ^ 63
  pub inside :
      (tag : ℕ)
      → IsTag m mbi_end first tag
      → tag < mbi_end
      → tag_type m tag ≢ tag_type_end
      → (0 < tag_size m tag) × (tag_size m tag + 7 < 2 ^ 32) × (tag + tag_size m tag ≤ mbi_end)
  pub entries :
      (tag : ℕ)
      → IsTag m mbi_end first tag
      → tag < mbi_end
      → tag_type m tag ≡ tag_type_mmap
      → (0 < mmap_entry_size m tag) × (mmap_entry_size m tag < 2 ^ 32)

abbrev pub Ends : Option Pmm → Type 0
Ends o = (t : Pmm) × (o ≡ some t)

free_entries-Ends :
    (fuel : ℕ) (m : Ram) (limit size entry : ℕ) (s : Pmm)
    → 0 < size
    → size < 2 ^ 32
    → limit < 2 ^ 63
    → limit - entry < fuel
    → Ends (free_entries fuel m limit size entry s)
unfolding free_entries
free_entries-Ends zero m limit size entry s pos short low h = elim h [ ]
free_entries-Ends (suc fuel) m limit size entry s pos short low h =
    elim (Bool-cases (ltb entry limit)) [
      | inr out ↦ (s, rw out)
      | inl more ↦
          let lt = ltb→lt entry limit more in
          let ahead : to_u64 (entry + size) ≡ entry + size = omega arith in
          rw more (
            free_entries-Ends fuel m limit size (to_u64 (entry + size)) _ pos short low
              (omega arith))
    ]

-- The step from tag to tag goes forward, by the size rounded up to a multiple of 8.
next_tag-eq :
    (m : Ram) (tag : ℕ)
    → tag < 2 ^ 63
    → tag_size m tag + 7 < 2 ^ 32
    → next_tag m tag ≡ tag + (tag_size m tag + 7) / 8 * 8
next_tag-eq m tag low short =
    let e : to_u32 (tag_size m tag + 7) ≡ tag_size m tag + 7 = omega arith in
    rw (e, align_down8 (tag_size m tag + 7) short) (omega arith)

module _ (m : Ram) (mbi_end first : ℕ) (w : IsWellFormed m mbi_end first) where
  free_tag-Ends :
      (fuel tag : ℕ) (s : Pmm)
      → IsTag m mbi_end first tag
      → tag < mbi_end
      → tag_type m tag ≢ tag_type_end
      → mbi_end - tag ≤ fuel
      → Ends (free_tag fuel m tag s)
  unfolding free_tag
  free_tag-Ends fuel tag s r lt real h =
      let low = w.end in
      let inside = w.inside tag r lt real in
      let stop : to_u64 (tag + tag_size m tag) ≡ tag + tag_size m tag = omega arith in
      let start : to_u64 (tag + 16) ≡ tag + 16 = omega arith in
      elim (Bool-cases (tag_type m tag == tag_type_mmap)) [
        | inr other ↦ (s, rw other)
        | inl map ↦
            let entries = w.entries tag r lt ((==_iff _ _).0 map) in
            rw (map, stop, start)
              (free_entries-Ends fuel m (tag + tag_size m tag) (mmap_entry_size m tag) (tag + 16) s
                entries.0 entries.1 (omega arith) (omega arith))
      ]

  -- On a well-formed structure the loops end, within as many rounds as the structure has bytes.
  pub free_tags-Ends :
      (fuel tag : ℕ) (s : Pmm)
      → IsTag m mbi_end first tag
      → mbi_end - tag < fuel
      → Ends (free_tags fuel m mbi_end tag s)
  unfolding free_tags
  free_tags-Ends zero tag s r h = elim h [ ]
  free_tags-Ends (suc fuel) tag s r h =
      elim (Bool-cases (ltb tag mbi_end && not (tag_type m tag == tag_type_end))) [
        | inr out ↦ (s, rw out)
        | inl more ↦
            let lt : tag < mbi_end = ground arith in
            let real : tag_type m tag ≢ tag_type_end = ground arith in
            let sizes = w.inside tag r lt real in
            let (s', e) = free_tag-Ends fuel tag s r lt real (omega arith) in
            let ahead : mbi_end - next_tag m tag < fuel =
              omega (arith, next_tag-eq m tag (omega (arith, w.end)) sizes.1) in
            let (t, f) = free_tags-Ends fuel (next_tag m tag) s' (later_tag r lt real) ahead in
            (t, rw (more, e) f)
      ]
