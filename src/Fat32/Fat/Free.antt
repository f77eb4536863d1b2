-- ===== src/Fat32/Fat/Free.antt =====
-- The release of a chain: it ends, and frees the clusters of the chain and no other.
use gecko_os.Prelude.{
  ℕ, zero, suc, ◌+◌, ◌*◌, ◌≤◌, ◌<◌, ◌≡◌, ◌≢◌, ◌⊎◌, inl, inr, refl, sym, ap, ◌∙◌, subst, true, false,
  Bool-cases, some, arith, ◌==◌, if◌then◌else◌, ==-refl, ≢→==false, ==false→≢,
}
use gecko_os.Fat32.{Drive, Volume}
use gecko_os.Fat32.Fat.{
  masked, fat32_next_cluster, fat32_write_fat, is_cluster, fat32_free_cluster_chain,
}
use gecko_os.Fat32.Fat.Table.{IsTable, fat32_next_cluster-fat32_write_fat}

-- Every entry that names a cluster names one of the table.
pub record IsClosed (v : Volume) (d : Drive) : Type 0 where
  pub table : IsTable v d
  pub inside :
      (c : ℕ)
      → c < 128 * v.sectors_per_fat
      → is_cluster (fat32_next_cluster c v d) ≡ true
      → fat32_next_cluster c v d < 128 * v.sectors_per_fat

-- The clusters on the way from a cluster through the entries `t`.
pub data OnChain (t : ℕ → ℕ) : (c k : ℕ) → Type 0 where
  first : (c : ℕ) → is_cluster c ≡ true → OnChain t c c
  later : (c k : ℕ) → is_cluster c ≡ true → OnChain t (t c) k → OnChain t c k

-- The number of entries, of the first `n`, that are not 0.
unfoldable used : (n : ℕ) → (ℕ → ℕ) → ℕ
used zero t = 0
used (suc n) t = used n t + (if t n == 0 then 0 else 1)

used-≤ : (n : ℕ) (t : ℕ → ℕ) → used n t ≤ n
unfolding used
used-≤ zero t = omega arith
used-≤ (suc n) t =
    let rest = used-≤ n t in
    elim (Bool-cases (t n == 0)) [ inl e ↦ rw e (omega arith) | inr e ↦ rw e (omega arith) ]

-- An entry that becomes 0 lowers the number, unless it was 0.
used-same : (n : ℕ) (t t' : ℕ → ℕ) → ((k : ℕ) → k < n → t' k ≡ t k) → used n t' ≡ used n t
unfolding used
used-same zero t t' h = refl
used-same (suc n) t t' h =
    rw (h n (omega arith), used-same n t t' (λ k less. h k (omega (arith, less)))) refl

used-freed :
    (n c : ℕ) (t t' : ℕ → ℕ)
    → c < n
    → t c ≢ 0
    → ((k : ℕ) → k < n → t' k ≡ (if k == c then 0 else t k))
    → suc (used n t') ≡ used n t
unfolding used
used-freed zero c t t' less full h = omega arith
used-freed (suc n) c t t' less full h = elim (Bool-cases (n == c)) [
  | inl e ↦
      let same : n ≡ c = ground arith in
      let here : t' n ≡ 0 = h n (omega arith) ∙ (rw e refl) in
      let before : used n t' ≡ used n t = used-same n t t' (λ k low.
        let other : (k == c) ≡ false = ≢→==false k c (λ q. omega (arith, q, low)) in
        h k (omega (arith, low)) ∙ (rw other refl)) in
      let test : (t n == 0) ≡ false = ≢→==false (t n) 0 (λ z. full (ap t (sym same) ∙ z)) in
      rw (here, test, before) (omega arith)
  | inr e ↦
      let here : t' n ≡ t n = h n (omega arith) ∙ (rw e refl) in
      let other : n ≢ c = ==false→≢ n c e in
      let rest = used-freed n c t t' (omega arith) full (λ k low. h k (omega (arith, low))) in
      rw here (omega arith)
]

abbrev entry : Volume → Drive → ℕ → ℕ
entry v d c = fat32_next_cluster c v d

abbrev entries : Volume → ℕ
entries v = 128 * v.sectors_per_fat

-- What a release from `c` has done: the entries on the chain are 0, each with that of the cluster behind it.
record IsReleased (c : ℕ) (v : Volume) (d d' : Drive) : Type 0 where
  closed : IsClosed v d'
  start : is_cluster c ≡ true → entry v d' c ≡ 0
  each :
      (k : ℕ)
      → k < entries v
      → (entry v d' k ≡ entry v d k)
        ⊎ ((entry v d' k ≡ 0)
            × OnChain (entry v d) c k
            × (is_cluster (entry v d k) ≡ true → entry v d' (entry v d k) ≡ 0))

zero_or_self : (a b : ℕ) → (a ≡ b) ⊎ (a ≡ 0) → b ≡ 0 → a ≡ 0
zero_or_self a b (inl e) z = e ∙ z
zero_or_self a b (inr e) z = e

-- A way starts with a cluster, so none starts at 0.
start_names : {t : ℕ → ℕ} → (c k : ℕ) → OnChain t c k → is_cluster c ≡ true
start_names _ _ (first c names) = names
start_names _ _ (later c k names rest) = names

stopped : {t : ℕ → ℕ} → (k : ℕ) → OnChain t 0 k → ⊥
stopped k way = cc (start_names 0 k way)

module _ (c : ℕ) (v : Volume) (d : Drive) (ok : IsClosed v d) (cluster : is_cluster c ≡ true)
    (less : c < entries v) where
  abbrev cleared : Drive
  cleared = (fat32_write_fat c 0 v d).drive

  abbrev step :
      IsTable v cleared
      × ((k : ℕ) → k < entries v → entry v cleared k ≡ (if k == c then masked 0 else entry v d k))
  step = fat32_next_cluster-fat32_write_fat c 0 v d ok.table less

  cleared_self : entry v cleared c ≡ 0
  cleared_self = step.1 c less ∙ (rw (==-refl c) refl)

  cleared_other : (k : ℕ) → k < entries v → (k == c) ≡ false → entry v cleared k ≡ entry v d k
  cleared_other k low other = step.1 k low ∙ (rw other refl)

  cleared-IsClosed : IsClosed v cleared
  cleared-IsClosed = record {
    table = step.0;
    inside = λ k low names. elim (Bool-cases (k == c)) [
      | inl e ↦
          let same : k ≡ c = ground arith in omega (arith, ap (entry v cleared) same ∙ cleared_self)
      | inr e ↦
          let same = cleared_other k low e in
          subst (λ n. n < entries v) (sym same) (ok.inside k low (ap is_cluster (sym same) ∙ names))
    ];
  }

  -- A way that the cleared entry leaves open is one through the entries as they were.
  onchain-cleared :
      (x k : ℕ) → x < entries v → OnChain (entry v cleared) x k → OnChain (entry v d) x k
  onchain-cleared _ _ low (first x names) = first x names
  onchain-cleared _ _ low (later x k names rest) = elim (Bool-cases (x == c)) [
    | inl e ↦
        let same : x ≡ c = ground arith in
        elim (stopped k (
          subst (λ n. OnChain (entry v cleared) n k) (ap (entry v cleared) same ∙ cleared_self)
            rest)) [ ]
    | inr e ↦
        let same = cleared_other x low e in
        let low' = cleared-IsClosed.inside x low (start_names (entry v cleared x) k rest) in
        later x k names (
          subst (λ n. OnChain (entry v d) n k) same
            (onchain-cleared (entry v cleared x) k low' rest))
  ]

  -- One round, and then the rest.
  round-IsReleased : (d' : Drive) → IsReleased (entry v d c) v cleared d' → IsReleased c v d d'
  round-IsReleased d' rest =
      let freed : entry v d' c ≡ 0 = elim (rest.each c less) [
        | inl kept ↦ kept ∙ cleared_self
        | inr (zeroed, _, _) ↦ zeroed
      ] in
      record {
        closed = rest.closed;
        start = λ _. freed;
        each = λ k low. elim (Bool-cases (k == c)) [
          | inl e ↦
              let same : c ≡ k = ground arith in
              subst
                (λ n.
                  (entry v d' n ≡ entry v d n)
                  ⊎ ((entry v d' n ≡ 0)
                      × OnChain (entry v d) c n
                      × (is_cluster (entry v d n) ≡ true → entry v d' (entry v d n) ≡ 0)))
                same (inr (freed, first c cluster, rest.start))
          | inr e ↦
              let same = cleared_other k low e in
              elim (rest.each k low) [
                | inl kept ↦ inl (kept ∙ same)
                | inr (zeroed, way, next) ↦
                    let names = start_names (entry v d c) k way in
                    inr (
                      zeroed,
                      later c k cluster
                          (onchain-cleared (entry v d c) k (ok.inside c less names) way),
                      subst (λ n. is_cluster n ≡ true → entry v d' n ≡ 0) same next,
                    )
              ]
        ];
      }

  -- The round uses up an entry, or is the last but one.
  fewer :
      (fuel : ℕ)
      → used (entries v) (entry v d) + 2 ≤ suc fuel
      → (used (entries v) (entry v cleared) + 2 ≤ fuel)
        ⊎ ((is_cluster (entry v d c) ≡ false) × (1 ≤ fuel))
  fewer fuel h = elim (Bool-cases (is_cluster (entry v d c))) [
    | inr e ↦ inr (e, omega (arith, h))
    | inl e ↦
        let full : entry v d c ≢ 0 = λ z. cc (sym e ∙ ap is_cluster z) in
        let count = used-freed (entries v) c (entry v d) (entry v cleared) less full step.1 in
        inl (omega (arith, h, count))
  ]

-- Enough rounds: two more than the entries in use.
release :
    (fuel c : ℕ) (v : Volume) (d : Drive)
    → IsClosed v d
    → (is_cluster c ≡ true → c < entries v)
    → (used (entries v) (entry v d) + 2 ≤ fuel) ⊎ ((is_cluster c ≡ false) × (1 ≤ fuel))
    → (d' : Drive) × (fat32_free_cluster_chain fuel c v d ≡ some d') × IsReleased c v d d'
unfolding fat32_free_cluster_chain
release zero c v d ok low enough =
    let none_left : ⊥ = elim enough [ inl h ↦ omega (arith, h) | inr (_, h) ↦ omega (arith, h) ] in
    elim none_left [ ]
release (suc fuel) c v d ok low enough = elim (Bool-cases (is_cluster c)) [
  | inr e ↦ rw e (
    d,
    refl,
    record { closed = ok; start = λ names. cc (sym names ∙ e); each = λ k inside. inl refl },
  )
  | inl e ↦
      let less = low e in
      let ok' = cleared-IsClosed c v d ok e less in
      let (d', run, rest) =
        release fuel (entry v d c) v (cleared c v d ok e less) ok' (ok.inside c less) (
          fewer c v d ok e less fuel
            (elim enough [ inl h ↦ h | inr (names, _) ↦ cc (sym e ∙ names) ])) in
      rw (e, run) (d', refl, round-IsReleased c v d ok e less d' rest)
]

all_freed :
    (start : ℕ) (v : Volume) (d d' : Drive)
    → IsClosed v d
    → IsReleased start v d d'
    → (c k : ℕ) → c < entries v
    → entry v d' c ≡ 0
    → OnChain (entry v d) c k
    → entry v d' k ≡ 0
all_freed start v d d' ok rel _ _ low freed (first c names) = freed
all_freed start v d d' ok rel _ _ low freed (later c k names rest) =
    let next = start_names (entry v d c) k rest in
    let freed' : entry v d' (entry v d c) ≡ 0 = elim (rel.each c low) [
      | inl kept ↦ cc (sym next ∙ ap is_cluster (sym kept ∙ freed))
      | inr (_, _, close) ↦ close next
    ] in
    all_freed start v d d' ok rel (entry v d c) k (ok.inside c low next) freed' rest

-- Where every entry of the table that names a cluster names one of the table, `fat32_free_cluster_chain` from a
-- cluster of the table ends, also when the chain is a cycle: rounds for two more than the table's entries are
-- enough. The table is closed as before, and the entry of every cluster `k` of the chain is 0.
pub fat32_free_cluster_chain_lem :
    (c k : ℕ) (v : Volume) (d : Drive)
    → IsClosed v d
    → c < 128 * v.sectors_per_fat
    → OnChain (λ n. fat32_next_cluster n v d) c k
    → (d' : Drive) × (fat32_free_cluster_chain (128 * v.sectors_per_fat + 2) c v d ≡ some d')
      × IsClosed v d'
      × (fat32_next_cluster k v d' ≡ 0)
fat32_free_cluster_chain_lem c k v d ok low way =
    let (d', run, rel) =
      release (128 * v.sectors_per_fat + 2) c v d ok (λ _. low)
        (inl (omega (arith, used-≤ (entries v) (entry v d)))) in
    (d', run, rel.closed, all_freed c v d d' ok rel c k low (rel.start (start_names c k way)) way)

-- Where every entry of the table that names a cluster names one of the table, and from any cluster of the table or
-- a number that names none, `fat32_free_cluster_chain` ends, and leaves the entry of a cluster `k` of the table as
-- it was unless `k` is on the chain.
pub fat32_free_cluster_chain-kept :
    (c k : ℕ) (v : Volume) (d : Drive)
    → IsClosed v d
    → (is_cluster c ≡ true → c < 128 * v.sectors_per_fat)
    → k < 128 * v.sectors_per_fat
    → (d' : Drive) × (fat32_free_cluster_chain (128 * v.sectors_per_fat + 2) c v d ≡ some d')
      × ((fat32_next_cluster k v d' ≡ fat32_next_cluster k v d)
          ⊎ OnChain (λ n. fat32_next_cluster n v d) c k)
fat32_free_cluster_chain-kept c k v d ok low inside =
    let (d', run, rel) =
      release (128 * v.sectors_per_fat + 2) c v d ok low
        (inl (omega (arith, used-≤ (entries v) (entry v d)))) in
    (d', run, elim (rel.each k inside) [ inl same ↦ inl same | inr (_, way, _) ↦ inr way ])
