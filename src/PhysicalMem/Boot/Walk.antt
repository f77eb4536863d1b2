-- ===== src/PhysicalMem/Boot/Walk.antt =====
-- Which blocks the loop over all the tags leaves free.
use gecko_os.Prelude.{
  ℕ, zero, suc, ◌+◌, ◌<◌, ◌⊎◌, inl, inr, Option, none, some, arith, ltb, ◌==◌, ◌≢◌, Bool-cases, not,
  ◌&&◌, ==_iff,
}
use gecko_os.PhysicalMem.{Pmm, to_u64}
use gecko_os.PhysicalMem.Bitmap.{IsValid}
use gecko_os.PhysicalMem.Boot.{
  Ram, tag_type, tag_size, mmap_entry_size, tag_type_end, tag_type_mmap, free_tag, free_tags,
  next_tag,
}
use gecko_os.PhysicalMem.Boot.Tags.{Keeps, free_tag-Keeps}
use gecko_os.PhysicalMem.Boot.Freed.{
  MapHas, TagHas, IsAvailable, Frees, Frees-nothing, Frees-map, Frees-after, EntriesHave,
  free_entries-Frees,
}

module _ (m : Ram) (x : ℕ) where
  free_tag-Frees :
      (fuel tag : ℕ) (s : Pmm)
      → IsValid s
      → x < s.max_blocks
      → Frees (MapHas m tag x) s (free_tag fuel m tag s) x
  unfolding free_tag
  free_tag-Frees fuel tag s v below =
      let limit = to_u64 (tag + tag_size m tag) in
      let size = mmap_entry_size m tag in
      elim (Bool-cases (tag_type m tag == tag_type_mmap)) [
        | inl map ↦ rw map (
            Frees-map (EntriesHave m x limit size (to_u64 (tag + 16))) (MapHas m tag x) s _ x
              (λ h. ((==_iff _ _).0 map, h.0, h.1)) (λ h. (h.1, h.2))
              (free_entries-Frees m x limit size fuel (to_u64 (tag + 16)) s v below))
        | inr other ↦ rw other (Frees-nothing (MapHas m tag x) s x λ h. ground (arith, other, h.0))
      ]

  module _ (mbi_end : ℕ) where
    abbrev Goes : ℕ → Type 0
    Goes tag = (tag < mbi_end) × (tag_type m tag ≢ tag_type_end)

    TagHas-Goes : (k tag : ℕ) → TagHas m mbi_end k tag x → Goes tag
    TagHas-Goes zero tag (lt, real, h) = (lt, real)
    TagHas-Goes (suc k) tag (lt, real, h) = (lt, real)

    split_tag :
        (k tag : ℕ)
        → TagHas m mbi_end k tag x
        → MapHas m tag x ⊎ IsAvailable m mbi_end (next_tag m tag) x
    split_tag zero tag (lt, real, here) = inl here
    split_tag (suc k) tag (lt, real, later) = inr (k, later)

    join_tag :
        (tag : ℕ)
        → Goes tag
        → MapHas m tag x ⊎ IsAvailable m mbi_end (next_tag m tag) x
        → IsAvailable m mbi_end tag x
    join_tag tag (lt, real) (inl here) = (0, (lt, real, here))
    join_tag tag (lt, real) (inr (k, later)) = (suc k, (lt, real, later))

    -- If the loop returns, it has freed exactly the blocks of the entries that are available.
    pub free_tags-Frees :
        (fuel tag : ℕ) (s : Pmm)
        → IsValid s
        → x < s.max_blocks
        → Frees (IsAvailable m mbi_end tag x) s (free_tags fuel m mbi_end tag s) x
    unfolding free_tags
    free_tags-Frees zero tag s v below = tt
    free_tags-Frees (suc fuel) tag s v below =
        elim (Bool-cases (ltb tag mbi_end && not (tag_type m tag == tag_type_end))) [
          | inr out ↦ rw out (
              Frees-nothing (IsAvailable m mbi_end tag x) s x
                λ h. let (lt, real) = TagHas-Goes h.0 tag h.1 in ground (arith, out, lt, real))
          | inl more ↦
              let goes : Goes tag = (ground (arith, more), ground (arith, more)) in
              rw more (
                Frees-map _ (IsAvailable m mbi_end tag x) s _ x (join_tag tag goes)
                  (λ h. split_tag h.0 tag h.1)
                  (go (free_tags-Frees fuel (next_tag m tag)) (free_tag fuel m tag s)
                    (free_tag-Keeps fuel m tag s v) (free_tag-Frees fuel tag s v below)))
        ]
      where
        go :
            ((s' : Pmm)
              → IsValid s'
              → x < s'.max_blocks
              → Frees
                  (IsAvailable m mbi_end (next_tag m tag) x)
                  s'
                  (free_tags fuel m mbi_end (next_tag m tag) s')
                  x)
            → (o : Option Pmm) → Keeps s o
            → Frees (MapHas m tag x) s o x
            → Frees
                (MapHas m tag x ⊎ IsAvailable m mbi_end (next_tag m tag) x)
                s
                (elim o [ none ↦ none | some s' ↦ free_tags fuel m mbi_end (next_tag m tag) s' ])
                x
        go later none k f = tt
        go later (some s') k f =
            let max = k.max in
            Frees-after (MapHas m tag x) (IsAvailable m mbi_end (next_tag m tag) x) s s' _ x f
              (later s' k.valid (omega (arith, max, below)))
