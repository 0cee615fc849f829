-- ===== src/Domain/ICloudCleanup/Bounds.antt =====
-- What a cleanup plans (icloud_cleanup.py: the selection of create_manifest).
use mathlib.Core.Path.{subst}
use mnema.Prelude.{
  ℕ, zero, suc, true, DateTime, ◌+◌, ◌≤◌, ◌<◌, ◌≡◌, refl, ap, ◌&&◌, List, [], ◌∷◌, length, take,
  ltb, leb, ◌⊎◌, inl, inr, Bool-cases, arith,
}
use mnema.Jobs.Models.Cloud.{ICloudAsset}
use mnema.Domain.ICloudCleanup.{ICloudQuota, Cleaner}
use mnema.Domain.ICloudCleanup.Selection.{choose, candidates_of}
use mnema.Domain.ICloudCleanup.Candidates.{AllCandidates, is_ordered, candidates_lem}
use mnema.Runtime.Files.{Files}
use mnema.Domain.ICloudCleanup.Planning.{needed_of, cap_of, plan}

abbrev pub total : List ICloudAsset → ℕ
total [] = 0
total (a ∷ assets) = a.original_size + total assets

-- All but the last.
abbrev pub but_last : List ICloudAsset → List ICloudAsset
but_last [] = []
but_last (a ∷ []) = []
but_last (a ∷ b ∷ assets) = a ∷ but_last (b ∷ assets)

but_last_cons :
    (a : ICloudAsset) (assets : List ICloudAsset) (planned needed : ℕ)
    → planned + a.original_size < needed
    → (length assets ≤ 1) ⊎ (planned + a.original_size + total (but_last assets) < needed)
    → (length (a ∷ assets) ≤ 1) ⊎ (planned + total (but_last (a ∷ assets)) < needed)
but_last_cons a [] planned needed little h = inl (omega arith)
but_last_cons a (b ∷ []) planned needed little h = inr (omega arith)
but_last_cons a (b ∷ d ∷ assets) planned needed little (inl few) = absurd (ground arith)
but_last_cons a (b ∷ d ∷ assets) planned needed little (inr more) = inr (omega arith)

module _ (max_assets cap needed : ℕ) where
  choose_total :
      (n planned : ℕ) (candidates : List ICloudAsset)
      → let (selected, sum) = choose max_assets cap needed n planned candidates in
        sum ≡ planned + total selected
  unfolding choose
  choose_total n planned [] = omega arith
  choose_total n planned (a ∷ candidates) =
      ground (arith, choose_total (n + 1) (planned + a.original_size) candidates)

  choose_few :
      (n planned : ℕ) (candidates : List ICloudAsset)
      → n ≤ max_assets
      → n + length (choose max_assets cap needed n planned candidates).0 ≤ max_assets
  unfolding choose
  choose_few n planned [] h = ground arith
  choose_few n planned (a ∷ candidates) h =
      ground (arith, choose_few (n + 1) (planned + a.original_size) candidates)

  abbrev after_one : ℕ → ℕ → ICloudAsset → List ICloudAsset → List ICloudAsset × ℕ
  after_one n planned a candidates =
      choose max_assets cap needed (n + 1) (planned + a.original_size) candidates

  -- The loop stops, or takes the last asset that it needs, or takes one and goes on.
  choose_step :
      (n planned : ℕ) (a : ICloudAsset) (candidates : List ICloudAsset)
      → let result = choose max_assets cap needed n planned (a ∷ candidates) in
        let more = planned + a.original_size in
        let (rest, sum) = after_one n planned a candidates in
        (result ≡ ([], planned))
        ⊎ (((n ≡ 0) ⊎ (more ≤ cap)) × (result ≡ (a ∷ [], more)))
        ⊎ (((n ≡ 0) ⊎ (more ≤ cap)) × (more < needed) × (result ≡ (a ∷ rest, sum)))
  unfolding choose
  choose_step n planned a candidates = elim (Bool-cases (leb max_assets n)) [
    | inl full ↦ inl (ground arith)
    | inr space ↦ elim (Bool-cases (ltb 0 n && ltb cap (planned + a.original_size))) [
      | inl over ↦ inl (ground arith)
      | inr under ↦ elim (Bool-cases (leb needed (planned + a.original_size))) [
        | inl enough ↦ inr (inl (ground arith, ground arith))
        | inr little ↦ inr (inr (ground arith, ground arith, ground arith))
      ]
    ]
  ]

  choose_capped :
      (n planned : ℕ) (candidates : List ICloudAsset)
      → 0 < n
      → let (selected, sum) = choose max_assets cap needed n planned candidates in
        (selected ≡ []) ⊎ (sum ≤ cap)
  unfolding choose
  choose_capped n planned [] h = inl refl
  choose_capped n planned (a ∷ candidates) h = elim (choose_step n planned a candidates) [
    | inl stops ↦ inl (ap (λ r. r.0) stops)
    | inr (inl (room, last)) ↦ inr (ground (arith, last, room))
    | inr (inr (room, little, goes_on)) ↦
        elim (choose_capped (n + 1) (planned + a.original_size) candidates (omega arith)) [
          | inl none_left ↦ inr (
              ground (
                arith,
                goes_on,
                room,
                choose_total (n + 1) (planned + a.original_size) candidates,
                ap total none_left,
              ))
          | inr capped ↦ inr (ground (arith, goes_on, capped))
        ]
  ]

  -- One asset at most, or less than is needed without the last.
  choose_needed :
      (n planned : ℕ) (candidates : List ICloudAsset)
      → let (selected, sum) = choose max_assets cap needed n planned candidates in
        (length selected ≤ 1) ⊎ (planned + total (but_last selected) < needed)
  unfolding choose
  choose_needed n planned [] = inl (omega arith)
  choose_needed n planned (a ∷ candidates) = elim (choose_step n planned a candidates) [
    | inl stops ↦ inl (ground (arith, ap (λ r. length r.0) stops))
    | inr (inl (room, last)) ↦ inl (ground (arith, ap (λ r. length r.0) last))
    | inr (inr (room, little, goes_on)) ↦ rw goes_on (
        but_last_cons a (after_one n planned a candidates).0 planned needed little
          (choose_needed (n + 1) (planned + a.original_size) candidates))
  ]

  choose_begins :
      (n planned : ℕ) (candidates : List ICloudAsset)
      → let (selected, sum) = choose max_assets cap needed n planned candidates in
        take (length selected) candidates ≡ selected
  unfolding choose
  choose_begins n planned [] = refl
  choose_begins n planned (a ∷ candidates) =
      ground (arith, choose_begins (n + 1) (planned + a.original_size) candidates)

  -- The first asset is taken whatever its size.
  choose_first :
      (candidates : List ICloudAsset)
      → let (selected, sum) = choose max_assets cap needed 0 0 candidates in
        (length selected ≤ 1) ⊎ (sum ≤ cap)
  unfolding choose
  choose_first [] = inl (omega arith)
  choose_first (a ∷ candidates) = elim (choose_step 0 0 a candidates) [
    | inl stops ↦ inl (ground (arith, ap (λ r. length r.0) stops))
    | inr (inl (room, last)) ↦ inl (ground (arith, ap (λ r. length r.0) last))
    | inr (inr (room, little, goes_on)) ↦
        elim (choose_capped 1 a.original_size candidates (omega arith)) [
          | inl none_left ↦ inl (ground (arith, ap (λ r. length r.0) goes_on, ap length none_left))
          | inr capped ↦ inr (ground (arith, goes_on, capped))
        ]
  ]

take-all :
    {Ext : Type 0} (c : Cleaner Ext) (files : Files) (now : DateTime) (n : ℕ)
    (assets : List ICloudAsset)
    → AllCandidates c files now assets
    → AllCandidates c files now (take n assets)
take-all c files now zero assets all = tt
take-all c files now (suc n) [] all = tt
take-all c files now (suc n) (a ∷ assets) (first, rest) =
    (first, take-all c files now n assets rest)

-- What a cleanup plans to delete. Each selected asset is of the own library, no favorite, not deleted yet, complete,
-- and archived in all its components: backup and remote copy verified, both waiting periods over and the
-- file in active storage as it was hashed. The selection is the beginning of the candidates, which come oldest first, and
-- is no longer than the limit; it is one asset alone, or no more bytes than the share of the
-- quota that one manifest may take; and no asset is added after the first once the bytes before it
-- are enough. The bytes that are stated are theirs.
pub plan_bounds :
    {Ext : Type 0} (c : Cleaner Ext) (q : ICloudQuota) (files : Files) (now : DateTime)
    (assets : List ICloudAsset)
    → let candidates = candidates_of c files now assets in
      let (selected, planned) = plan c q candidates in
      AllCandidates c files now selected
      × (is_ordered candidates ≡ true)
      × (take (length selected) candidates ≡ selected)
      × (length selected ≤ c.icloud_cleanup_max_assets)
      × (planned ≡ total selected)
      × ((length selected ≤ 1) ⊎ (planned ≤ cap_of c q.quota_bytes))
      × ((length selected ≤ 1) ⊎ (total (but_last selected) < needed_of c q))
unfolding plan
plan_bounds c q files now assets =
    let candidates = candidates_of c files now assets in
    let m = c.icloud_cleanup_max_assets in
    let cap = cap_of c q.quota_bytes in
    let needed = needed_of c q in
    let selected = (choose m cap needed 0 0 candidates).0 in
    let (fit, ordered) = candidates_lem c files now assets in
    let begins = choose_begins m cap needed 0 0 candidates in
    (
      subst (AllCandidates c files now) begins
          (take-all c files now (length selected) candidates fit),
      ordered,
      begins,
      omega (arith, choose_few m cap needed 0 0 candidates (omega arith)),
      omega (arith, choose_total m cap needed 0 0 candidates),
      choose_first m cap needed candidates,
      elim (choose_needed m cap needed 0 0 candidates) [
        | inl few ↦ inl few
        | inr more ↦ inr (omega arith)
      ],
    )
