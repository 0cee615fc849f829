-- ===== src/Domain/ICloudCleanup/Candidates.antt =====
-- Which assets a cleanup may plan, and in which order (icloud_cleanup.py: _eligible and the query of
-- create_manifest).
use mnema.Prelude.{
  ℕ, ◌+◌, ◌≤◌, ◌≡◌, refl, Bool, true, false, not, ◌&&◌, Option, none, some, List, [], ◌∷◌, all,
  keep_if, length, leb, is_some, is_none, String, str_eq, str_eq_iff, DateTime, days, ◌⊎◌, inl, inr,
  Bool-cases, Option-cases, arith,
}
use mnema.Runtime.Files.{Files, Content, regular, symlink, directory}
use mnema.Adapters.FileOps.{sha256_file}
use mnema.Domain.States.{ArchiveState, member, quarantined, archived, state_eq, state_eq_iff}
use mnema.Jobs.Models.Archive.{ArchiveItem}
use mnema.Jobs.Models.Cloud.{ICloudAsset}
use mnema.Domain.ICloudCleanup.{Cleaner, holds, component_eligible, asset_eligible}
use mnema.Domain.ICloudCleanup.Selection.{insert, oldest_first, candidates_of}

-- Every asset of the rest is at least as young as the first.
abbrev pub is_ordered : List ICloudAsset → Bool
is_ordered [] = true
is_ordered (a ∷ assets) =
    all (λ b. leb a.created_at_remote b.created_at_remote) assets && is_ordered assets

module _ {Ext : Type 0} (c : Cleaner Ext) (files : Files) (now : DateTime) where
  -- An item with a verified backup, a verified object in the archive class, both waiting periods over,
  -- and its file in active storage as it was archived.
  pub record IsArchived (i : ArchiveItem) : Type 0 where
    pub stored : (i.state ≡ quarantined) ⊎ (i.state ≡ archived)
    pub backed_up : is_some i.kopia_verified_at ≡ true
    pub snapshot : is_some i.kopia_snapshot_id ≡ true
    pub remote : is_some i.remote_verified_at ≡ true
    pub provider : i.remote_provider ≡ some "scaleway-glacier"
    pub bucket : is_some i.remote_bucket ≡ true
    pub object : is_some i.remote_object_identifier ≡ true
    pub expires : DateTime
    pub quarantine : i.quarantine_expires_at ≡ some expires
    pub quarantine_over : expires ≤ now
    pub frozen : DateTime
    pub cold : i.cold_archived_at ≡ some frozen
    pub cold_over : frozen + days c.icloud_cleanup_quarantine_days ≤ now
    pub text : String
    pub path : i.nas_path ≡ some text
    pub bytes : Content
    pub file : files (c.host.lib.resolve files (c.path_of text)) ≡ some (regular bytes)
    pub size : length bytes ≡ i.original_size
    pub hash : i.plaintext_sha256 ≡ some (c.host.sha256 bytes)

  abbrev pub AllArchived : List ArchiveItem → Type 0
  AllArchived [] = Unit
  AllArchived (i ∷ items) = IsArchived i × AllArchived items

  pub record IsCandidate (a : ICloudAsset) : Type 0 where
    pub no_favorite : a.favorite ≡ false
    pub there : a.remotely_deleted_at ≡ none
    pub library : a.library ≡ "PrimarySync"
    pub complete : length a.components ≡ a.expected_components
    pub components : AllArchived a.components

  abbrev pub AllCandidates : List ICloudAsset → Type 0
  AllCandidates [] = Unit
  AllCandidates (a ∷ assets) = IsCandidate a × AllCandidates assets

  held :
      (path sha256 : Option String) (size : ℕ)
      → holds c files path size sha256 ≡ true
      → (text : String) × (bytes : Content) × (path ≡ some text)
        × (files (c.host.lib.resolve files (c.path_of text)) ≡ some (regular bytes))
        × (length bytes ≡ size)
        × (sha256 ≡ some (c.host.sha256 bytes))
  unfolding holds sha256_file
  held none sha256 size h = absurd (ground arith)
  held (some text) none size h = absurd (ground arith)
  held (some text) (some sha) size h =
      elim (Option-cases (files (c.host.lib.resolve files (c.path_of text)))) [
        | inl missing ↦ absurd (ground arith)
        | inr (symlink, found) ↦ absurd (ground arith)
        | inr (directory n, found) ↦ absurd (ground arith)
        | inr (regular bytes, found) ↦ (
          text,
          bytes,
          refl,
          found,
          ground arith,
          ground (arith, str_eq_iff (c.host.sha256 bytes) sha),
        )
      ]

  where_stored :
      (state : ArchiveState)
      → member state (quarantined ∷ archived ∷ []) ≡ true
      → (state ≡ quarantined) ⊎ (state ≡ archived)
  where_stored state h = elim (Bool-cases (state_eq state quarantined)) [
    | inl q ↦ inl ((state_eq_iff state quarantined).0 q)
    | inr other ↦ inr ((state_eq_iff state archived).0 (ground arith))
  ]

  eligible_state :
      (i : ArchiveItem)
      → component_eligible c files now i ≡ true
      → member i.state (quarantined ∷ archived ∷ []) ≡ true
  unfolding component_eligible
  eligible_state i h = ground arith

  eligible-IsArchived : (i : ArchiveItem) → component_eligible c files now i ≡ true → IsArchived i
  unfolding component_eligible
  eligible-IsArchived i h =
      let in_state = eligible_state i h in
      elim (Option-cases i.quarantine_expires_at) [
        | inl missing ↦ absurd (ground arith)
        | inr (expires, waiting) ↦ elim (Option-cases i.cold_archived_at) [
          | inl missing ↦ absurd (ground arith)
          | inr (frozen, cold) ↦ elim (Option-cases i.remote_provider) [
            | inl missing ↦ absurd (ground arith)
            | inr (provider, named) ↦
                let (text, bytes, path, file, size, hash) =
                  held i.nas_path i.plaintext_sha256 i.original_size (ground arith) in
                record {
                  stored = where_stored i.state in_state;
                  backed_up = ground arith;
                  snapshot = ground arith;
                  remote = ground arith;
                  provider = ground (arith, str_eq_iff provider "scaleway-glacier");
                  bucket = ground arith;
                  object = ground arith;
                  expires = expires;
                  quarantine = waiting;
                  quarantine_over = ground arith;
                  frozen = frozen;
                  cold = cold;
                  cold_over = ground arith;
                  text = text;
                  path = path;
                  bytes = bytes;
                  file = file;
                  size = size;
                  hash = hash;
                }
          ]
        ]
      ]

  all-archived :
      (items : List ArchiveItem)
      → all (component_eligible c files now) items ≡ true
      → AllArchived items
  all-archived [] h = tt
  all-archived (i ∷ items) h =
      (eligible-IsArchived i (ground arith), all-archived items (ground arith))

  abbrev in_library : ICloudAsset → Bool
  in_library a = str_eq a.library "PrimarySync"

  eligible-IsCandidate :
      (a : ICloudAsset) → asset_eligible c files now a ≡ true → in_library a ≡ true → IsCandidate a
  unfolding asset_eligible
  eligible-IsCandidate a h own = record {
    no_favorite = ground arith;
    there = ground arith;
    library = (str_eq_iff a.library "PrimarySync").0 own;
    complete = ground arith;
    components = all-archived a.components (ground arith);
  }

  kept-candidates :
      (assets : List ICloudAsset)
      → all in_library assets ≡ true
      → AllCandidates (keep_if (asset_eligible c files now) assets)
  kept-candidates [] h = tt
  kept-candidates (a ∷ assets) h = elim (Bool-cases (asset_eligible c files now a)) [
    | inl yes' ↦
        rw yes' (eligible-IsCandidate a yes' (ground arith), kept-candidates assets (ground arith))
    | inr no' ↦ rw no' (kept-candidates assets (ground arith))
  ]

all-keep_if :
    (p q : ICloudAsset → Bool) (assets : List ICloudAsset)
    → all p assets ≡ true
    → all p (keep_if q assets) ≡ true
all-keep_if p q [] h = refl
all-keep_if p q (a ∷ assets) h = ground (arith, all-keep_if p q assets)

ordered-keep_if :
    (q : ICloudAsset → Bool) (assets : List ICloudAsset)
    → is_ordered assets ≡ true
    → is_ordered (keep_if q assets) ≡ true
ordered-keep_if q [] h = refl
ordered-keep_if q (a ∷ assets) h = ground (
  arith,
  ordered-keep_if q assets,
  all-keep_if (λ b. leb a.created_at_remote b.created_at_remote) q assets,
)

module _ (text_leb : String → String → Bool) where
  all-insert :
      (p : ICloudAsset → Bool) (a : ICloudAsset) (assets : List ICloudAsset)
      → all p (insert text_leb a assets) ≡ (p a && all p assets)
  all-insert p a [] = refl
  all-insert p a (b ∷ assets) = ground (arith, all-insert p a assets)

  all-oldest_first :
      (p : ICloudAsset → Bool) (assets : List ICloudAsset)
      → all p (oldest_first text_leb assets) ≡ all p assets
  all-oldest_first p [] = refl
  all-oldest_first p (a ∷ assets) =
      ground (arith, all-insert p a (oldest_first text_leb assets), all-oldest_first p assets)

  all_later :
      (m n : DateTime) (assets : List ICloudAsset)
      → m ≤ n
      → all (λ b. leb n b.created_at_remote) assets ≡ true
      → all (λ b. leb m b.created_at_remote) assets ≡ true
  all_later m n [] le h = refl
  all_later m n (a ∷ assets) le h = ground (arith, all_later m n assets le)

  ordered-insert :
      (a : ICloudAsset) (assets : List ICloudAsset)
      → is_ordered assets ≡ true
      → is_ordered (insert text_leb a assets) ≡ true
  ordered-insert a [] h = refl
  ordered-insert a (b ∷ assets) h = ground (
    arith,
    ordered-insert a assets,
    all-insert (λ d. leb b.created_at_remote d.created_at_remote) a assets,
    all_later a.created_at_remote b.created_at_remote assets,
  )

  ordered-oldest_first :
      (assets : List ICloudAsset) → is_ordered (oldest_first text_leb assets) ≡ true
  ordered-oldest_first [] = refl
  ordered-oldest_first (a ∷ assets) =
      ordered-insert a (oldest_first text_leb assets) (ordered-oldest_first assets)

kept_library :
    (assets : List ICloudAsset)
    → all
        (λ a. str_eq a.library "PrimarySync")
        (keep_if
          (λ a. not a.favorite && is_none a.remotely_deleted_at && str_eq a.library "PrimarySync")
          assets)
      ≡ true
kept_library [] = refl
kept_library (a ∷ assets) = ground (arith, kept_library assets)

-- The candidates of a cleanup come oldest first, and each is an asset that may be deleted.
pub candidates_lem :
    {Ext : Type 0} (c : Cleaner Ext) (files : Files) (now : DateTime) (assets : List ICloudAsset)
    → AllCandidates c files now (candidates_of c files now assets)
      × (is_ordered (candidates_of c files now assets) ≡ true)
unfolding candidates_of
candidates_lem c files now assets =
    let own =
      keep_if
        (λ (a : ICloudAsset).
          not a.favorite && is_none a.remotely_deleted_at && str_eq a.library "PrimarySync")
        assets in
    (
      kept-candidates c files now (oldest_first c.text_leb own) (
          ground (
            arith,
            all-oldest_first c.text_leb (λ a. str_eq a.library "PrimarySync") own,
            kept_library assets,
          )),
      ordered-keep_if (asset_eligible c files now) (oldest_first c.text_leb own)
          (ordered-oldest_first c.text_leb own),
    )
