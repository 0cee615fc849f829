-- ===== src/FileProvider/Completion/Settled.antt =====
-- What is left after `reconcile_sealing_uploads` (service.py).
use mnema.Prelude.{
  ℕ, ◌+◌, ◌≤◌, ◌≡◌, refl, ap, ◌∙◌, Bool, true, false, not, ◌&&◌, ◌||◌, none, List, [], ◌∷◌, map,
  length, find, keep_if, any, if◌then◌else◌, String, str_eq, str_eq_iff, DateTime, arith,
  Bool-cases, Option-cases, inl, inr, find-passes, count, length-keep_if, length-map,
}
use mnema.Runtime.Errors.{ok, Result-cases}
use mnema.Jobs.Models.FileProvider.{
  FileProviderUpload, FileProviderUploadStatus, sealing, sealed, upload_status_eq,
}
use mnema.FileProvider.Auth.{update_first}
use mnema.FileProvider.Uploads.{Site, Server, is_upload}
use mnema.FileProvider.Sealing.{seal_upload, with_status}
use mnema.FileProvider.Completion.{
  give_up, reconcile_one, reconcile_all, is_sealing, reconcile_sealing_uploads,
}
use mnema.FileProvider.Sealing.Sealed.{seal_upload-ok}
use mnema.FileProvider.Completion.Caught.{seal_upload-err}

-- The primary key of the uploads.
abbrev pub has_unique_uploads : List FileProviderUpload → Bool
has_unique_uploads [] = true
has_unique_uploads (u ∷ us) = not (any (is_upload u.id) us) && has_unique_uploads us

-- Every upload that is SEALING is among these.
covered : List String → List FileProviderUpload → Bool
covered ids [] = true
covered ids (u ∷ us) = (not (is_sealing u) || any (str_eq u.id) ids) && covered ids us

covered_other :
    (id : String) (ids : List String) (us : List FileProviderUpload)
    → any (is_upload id) us ≡ false
    → covered (id ∷ ids) us ≡ true
    → covered ids us ≡ true
unfolding covered
covered_other id ids [] h c = refl
covered_other id ids (u ∷ us) h c = ground (arith, covered_other id ids us)

covered_next :
    (id : String) (ids : List String) (status : FileProviderUploadStatus)
    (us : List FileProviderUpload)
    → upload_status_eq status sealing ≡ false
    → has_unique_uploads us ≡ true
    → covered (id ∷ ids) us ≡ true
    → covered ids (update_first (is_upload id) (with_status status) us) ≡ true
unfolding covered
covered_next id ids status [] h unique c = refl
covered_next id ids status (u ∷ us) h unique c = elim (Bool-cases (str_eq u.id id)) [
  | inr other ↦ ground (arith, covered_next id ids status us)
  | inl same ↦
      let name = (str_eq_iff u.id id).0 same in
      ground (arith, same, name, covered_other id ids us, ap (λ i. any (is_upload i) us) name)
]

any-update_first :
    (id id' : String) (status : FileProviderUploadStatus) (us : List FileProviderUpload)
    → any (is_upload id') (update_first (is_upload id) (with_status status) us)
      ≡ any (is_upload id') us
any-update_first id id' status [] = refl
any-update_first id id' status (u ∷ us) = ground (arith, any-update_first id id' status us)

unique_next :
    (id : String) (status : FileProviderUploadStatus) (us : List FileProviderUpload)
    → has_unique_uploads (update_first (is_upload id) (with_status status) us)
      ≡ has_unique_uploads us
unique_next id status [] = refl
unique_next id status (u ∷ us) =
    ground (arith, unique_next id status us, any-update_first id u.id status us)

covered_more :
    (id : String) (ids : List String) (us : List FileProviderUpload)
    → covered ids us ≡ true
    → covered (id ∷ ids) us ≡ true
unfolding covered
covered_more id ids [] h = refl
covered_more id ids (u ∷ us) h = ground (arith, covered_more id ids us)

covered_start :
    (us : List FileProviderUpload) → covered (map (λ u. u.id) (keep_if is_sealing us)) us ≡ true
unfolding covered
covered_start [] = refl
covered_start (u ∷ us) = ground (
  arith,
  covered_start us,
  covered_more u.id (map (λ u. u.id) (keep_if is_sealing us)) us,
  str_eq_iff u.id u.id,
)

covered_end : (us : List FileProviderUpload) → covered [] us ≡ true → any is_sealing us ≡ false
unfolding covered
covered_end [] h = refl
covered_end (u ∷ us) h = ground (arith, covered_end us)

update_first-none :
    (id : String) (status : FileProviderUploadStatus) (us : List FileProviderUpload)
    → find (is_upload id) us ≡ none
    → update_first (is_upload id) (with_status status) us ≡ us
update_first-none id status [] h = refl
update_first-none id status (u ∷ us) h = ground (arith, update_first-none id status us)

-- One turn answers, and moves its upload out of SEALING.
reconcile_one_lem :
    (site : Site) (now : DateTime) (id : String) (s : Server)
    → (recovered : Bool) × (status : FileProviderUploadStatus) × ((reconcile_one site now id s).0
        ≡ ok recovered)
      × (upload_status_eq status sealing ≡ false)
      × ((reconcile_one site now id s).1.uploads
          ≡ update_first (is_upload id) (with_status status) s.uploads)
unfolding reconcile_one give_up
reconcile_one_lem site now id s = elim (Option-cases (find (is_upload id) s.uploads)) [
  | inl missing ↦
      (false, sealed, ground arith, refl, ground (arith, update_first-none id sealed s.uploads))
  | inr (u, found) ↦
      let name : u.id ≡ id =
        (str_eq_iff u.id id).0 (find-passes (is_upload id) s.uploads {x = u} found) in
      elim (Result-cases (seal_upload site now u s).0) [
        | inr (a, done) ↦ (
          true,
          sealed,
          ground arith,
          refl,
          ground (
            arith,
            name,
            ap (λ i. update_first (is_upload i) (with_status sealed) s.uploads) name,
            seal_upload-ok site now u s {a = a} {s' = (seal_upload site now u s).1} (ground arith),
          ),
        )
        | inl (e, bad) ↦
            let (caught, same) =
              seal_upload-err site now u s {e = e} {s' = (seal_upload site now u s).1}
                (ground arith) in
            (
              false,
              FileProviderUploadStatus.failed,
              ground (arith, caught),
              refl,
              ground (
                arith,
                caught,
                same,
                found,
                ap (find (is_upload id)) same,
                ap (update_first (is_upload id) (with_status FileProviderUploadStatus.failed)) same,
              ),
            )
      ]
]

reconcile_all_lem :
    (site : Site) (now : DateTime) (ids : List String) (s : Server)
    → has_unique_uploads s.uploads ≡ true
    → covered ids s.uploads ≡ true
    → (n : ℕ) × ((reconcile_all site now ids s).0 ≡ ok n)
      × (n ≤ length ids)
      × (any is_sealing (reconcile_all site now ids s).1.uploads ≡ false)
unfolding reconcile_all
reconcile_all_lem site now [] s unique c = (0, refl, omega arith, covered_end s.uploads c)
reconcile_all_lem site now (id ∷ ids) s unique c =
    let (recovered, status, answer, settled, uploads) = reconcile_one_lem site now id s in
    let (n, rest, few, none_left) =
      reconcile_all_lem site now ids (reconcile_one site now id s).1
        (ap has_unique_uploads uploads ∙ unique_next id status s.uploads ∙ unique)
        (ap (covered ids) uploads ∙ covered_next id ids status s.uploads settled unique c) in
    (
      if recovered then n + 1 else n,
      ground (arith, answer, rest),
      ground arith,
      ground (arith, answer, rest, none_left),
    )

-- `reconcile_sealing_uploads` always returns, with at most as many recovered uploads as there were to
-- seal, and where the uploads have different identifiers it leaves none of them SEALING: one that cannot
-- be sealed does not keep the others from it.
pub reconcile_settles :
    (site : Site) (now : DateTime) (s : Server)
    → has_unique_uploads s.uploads ≡ true
    → let (answer, s') = reconcile_sealing_uploads site now s in
      (n : ℕ) × (answer ≡ ok n)
      × (n ≤ count is_sealing s.uploads)
      × (any is_sealing s'.uploads ≡ false)
unfolding reconcile_sealing_uploads
reconcile_settles site now s unique =
    let (n, answer, few, none_left) =
      reconcile_all_lem site now (map (λ u. u.id) (keep_if is_sealing s.uploads)) s unique
        (covered_start s.uploads) in
    (
      n,
      answer,
      omega (
        arith,
        few,
        length-keep_if is_sealing s.uploads,
        length-map (λ u. u.id) (keep_if is_sealing s.uploads),
      ),
      none_left,
    )
