-- ===== src/Net/Arp/Cache.antt =====
-- The ARP cache as a partial map from IP addresses to MAC addresses.
use gecko_os.Prelude.{
  ℕ, ◌≡◌, refl, ◌∙◌, sym, ap, inl, inr, Bool, true, false, not, ◌&&◌, ◌||◌, none, some, List, [],
  ◌∷◌, arith, subst, ◌==◌, if◌then◌else◌, length, Bool-cases,
}
use gecko_os.Net.Words.{Mac, ArpEntry}
use gecko_os.Net.Arp.{holds, refresh, fill, update_cache, find_mac}

-- Whether an entry is free.
abbrev pub has_free : List ArpEntry → Bool
has_free [] = false
has_free (e ∷ es) = not e.valid || has_free es

-- Whether an entry is valid for the address.
abbrev pub knows : ℕ → List ArpEntry → Bool
knows ip [] = false
knows ip (e ∷ es) = holds ip e || knows ip es

-- No two valid entries have one address.
abbrev pub IsUnique : List ArpEntry → Type 0
IsUnique [] = Unit {0}
IsUnique (e ∷ es) = (e.valid ≡ true → knows e.ip es ≡ false) × IsUnique es

module _ (ip : ℕ) (mac : Mac) where
  refresh-knows : (c : List ArpEntry) → knows ip c ≡ false → refresh ip mac c ≡ none
  unfolding refresh
  refresh-knows [] h = refl
  refresh-knows (e ∷ es) h = ground (arith, refresh-knows es)

  -- A known address is given its new hardware address, and no other changes.
  refresh-some :
      (c : List ArpEntry)
      → knows ip c ≡ true
      → (c' : List ArpEntry) × (refresh ip mac c ≡ some c')
        × ((j : ℕ) → find_mac j c' ≡ (if j == ip then some mac else find_mac j c))
        × ((j : ℕ) → knows j c' ≡ knows j c)
        × (IsUnique c → IsUnique c')
        × (length c' ≡ length c)
  unfolding refresh find_mac
  refresh-some [] h = cc
  refresh-some (e ∷ es) h = elim (Bool-cases (holds ip e)) [
    | inl here ↦ (record e { mac = mac } ∷ es, rw here, λ j. ground arith, λ j. refl, λ u. u, refl)
    | inr there ↦
        let (c', step, found, known, unique, len) = refresh-some es (ground arith) in
        (
          e ∷ c',
          rw (there, step),
          λ j. ground (arith, found j),
          λ j. rw (known j),
          λ u. (λ v. known e.ip ∙ u.0 v, unique u.1),
          omega arith,
        )
  ]

  find_mac-knows : (j : ℕ) (c : List ArpEntry) → knows j c ≡ false → find_mac j c ≡ none
  unfolding find_mac
  find_mac-knows j [] h = refl
  find_mac-knows j (e ∷ es) h = ground (arith, find_mac-knows j es)

  find_mac-fill :
      (c : List ArpEntry)
      → knows ip c ≡ false
      → (j : ℕ)
      → find_mac j (fill ip mac c) ≡ (if j == ip && has_free c then some mac else find_mac j c)
  unfolding fill find_mac
  find_mac-fill [] h j = ground arith
  find_mac-fill (e ∷ es) h j = ground (arith, find_mac-fill es (ground arith) j)

  knows-fill :
      (c : List ArpEntry) (j : ℕ) → knows j (fill ip mac c) ≡ ((j == ip && has_free c) || knows j c)
  unfolding fill
  knows-fill [] j = ground arith
  knows-fill (e ∷ es) j = ground (arith, knows-fill es j)

fill-full : (ip : ℕ) (mac : Mac) (c : List ArpEntry) → has_free c ≡ false → fill ip mac c ≡ c
unfolding fill
fill-full ip mac [] h = refl
fill-full ip mac (e ∷ es) h = ground (arith, fill-full ip mac es)

update_cache-refresh :
    (ip : ℕ) (mac : Mac) (c c' : List ArpEntry)
    → refresh ip mac c ≡ some c'
    → update_cache ip mac c ≡ c'
unfolding update_cache
update_cache-refresh ip mac c c' h = ap (λ r. elim r [ some x ↦ x | none ↦ fill ip mac c ]) h

update_cache-fill :
    (ip : ℕ) (mac : Mac) (c : List ArpEntry)
    → knows ip c ≡ false
    → update_cache ip mac c ≡ fill ip mac c
unfolding update_cache
update_cache-fill ip mac c h =
    ap (λ r. elim r [ some x ↦ x | none ↦ fill ip mac c ]) (refresh-knows ip mac c h)

-- After an update the address is found at the new hardware address, if it was known or an entry was
-- free, and every other address is found as before.
pub find_mac-update_cache :
    (ip : ℕ) (mac : Mac) (c : List ArpEntry) (j : ℕ)
    → find_mac j (update_cache ip mac c)
      ≡ (if j == ip && (knows ip c || has_free c) then some mac else find_mac j c)
find_mac-update_cache ip mac c j = elim (Bool-cases (knows ip c)) [
  | inl known ↦
      let (c', step, found, known', unique, len) = refresh-some ip mac c known in
      rw (update_cache-refresh ip mac c c' step, known) (found j ∙ ground arith)
  | inr new ↦ rw (update_cache-fill ip mac c new, new) (find_mac-fill ip mac c new j)
]

length-fill : (ip : ℕ) (mac : Mac) (c : List ArpEntry) → length (fill ip mac c) ≡ length c
unfolding fill
length-fill ip mac [] = refl
length-fill ip mac (e ∷ es) = ground (arith, length-fill ip mac es)

length-update_cache :
    (ip : ℕ) (mac : Mac) (c : List ArpEntry) → length (update_cache ip mac c) ≡ length c
length-update_cache ip mac c = elim (Bool-cases (knows ip c)) [
  | inl known ↦
      let (c', step, found, known', unique, len) = refresh-some ip mac c known in
      rw (update_cache-refresh ip mac c c' step) len
  | inr new ↦ rw (update_cache-fill ip mac c new) (length-fill ip mac c)
]

fill-IsUnique :
    (ip : ℕ) (mac : Mac) (c : List ArpEntry)
    → knows ip c ≡ false
    → IsUnique c
    → IsUnique (fill ip mac c)
unfolding fill
fill-IsUnique ip mac [] h u = tt
fill-IsUnique ip mac (e ∷ es) h u = elim (Bool-cases e.valid) [
  | inl used ↦ rw used (
    λ v. ground (arith, knows-fill ip mac es e.ip, u.0),
    fill-IsUnique ip mac es (ground arith) u.1,
  )
  | inr free ↦ rw free (λ v. ground arith, u.1)
]

cache-IsUnique :
    (ip : ℕ) (mac : Mac) (c : List ArpEntry) → IsUnique c → IsUnique (update_cache ip mac c)
cache-IsUnique ip mac c u = elim (Bool-cases (knows ip c)) [
  | inl known ↦
      let (c', step, found, known', unique, len) = refresh-some ip mac c known in
      subst IsUnique (sym (update_cache-refresh ip mac c c' step)) (unique u)
  | inr new ↦ subst IsUnique (sym (update_cache-fill ip mac c new)) (fill-IsUnique ip mac c new u)
]

-- In a cache with at most one valid entry for each address, an update keeps that and the number of
-- entries.
pub update_cache-IsUnique :
    (ip : ℕ) (mac : Mac) (c : List ArpEntry)
    → IsUnique c
    → IsUnique (update_cache ip mac c) × (length (update_cache ip mac c) ≡ length c)
update_cache-IsUnique ip mac c u = (cache-IsUnique ip mac c u, length-update_cache ip mac c)
