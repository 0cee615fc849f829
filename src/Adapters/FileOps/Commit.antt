-- ===== src/Adapters/FileOps/Commit.antt =====
-- What a commit to active storage (fileops.py) keeps and changes.
use mnema.Prelude.{
  is_some, ap, ◌∙◌, ℕ, ◌≡◌, ◌⊎◌, inl, inr, refl, true, false, ◌&&◌, Option, none, some, length,
  ◌==◌, String, str_eq, str_eq_iff, Option-cases, Bool-cases, arith,
}
use mnema.Runtime.Errors.{Error, ok, err, Result-cases}
use mnema.Runtime.Files.{
  FilePath, is_relative_to, path_eq, path_eq_refl, Content, Node, regular, symlink, directory,
  Files, write, replace,
}
use mnema.Domain.Storage.{resolve_beneath}
use mnema.Adapters.FileOps.{
  Host, CommitReceipt, move_to, collision_path, commit_beside, commit_over, commit_at, check_staged,
  commit_staged,
}

-- What a commit that began with `files` and ended with `files'` has done.
pub record IsCommitted (host : Host) (files files' : Files) (staged : FilePath) (sha : String)
    (size : ℕ) (r : CommitReceipt) : Type 0 where
  pub receipt_hash : r.sha256 ≡ sha
  pub receipt_size : r.size ≡ size
  pub stored :
      (bytes : Content) × (files' r.path ≡ some (regular bytes))
      × (host.sha256 bytes ≡ sha)
      × (length bytes ≡ size)
  pub staged_gone : files' staged ≡ none
  pub others_kept :
      (p : FilePath)
      → (path_eq p staged ≡ true) ⊎ ((path_eq p r.path ≡ true) ⊎ (files' p ≡ files p))
  pub not_overwritten :
      (is_some r.transformed_from ≡ true) ⊎ ((files r.path ≡ none) ⊎ (files' r.path ≡ files r.path))

-- What a failed commit leaves: every file as it was, or the staged file moved whole to `p`, where what
-- came after the move failed.
abbrev pub IsUnfinished : Host → Files → Files → FilePath → Type 0
IsUnfinished host files files' staged =
    (files' ≡ files)
    ⊎ ((p : FilePath) × (e : Error) × (host.settle p ≡ err e) × (files' ≡ replace staged p files))

checked_bytes :
    (host : Host) (node : Option Node) (sha : String) (size : ℕ)
    → check_staged host node sha size ≡ ok tt
    → (bytes : Content) × (node ≡ some (regular bytes))
      × (host.sha256 bytes ≡ sha)
      × (length bytes ≡ size)
unfolding check_staged
checked_bytes host (some (regular bytes)) sha size h =
    (bytes, refl, ground (arith, str_eq_iff (host.sha256 bytes) sha), ground arith)
checked_bytes host (some symlink) sha size h = cc
checked_bytes host (some (directory n)) sha size h = cc
checked_bytes host none sha size h = cc

-- The two ways in which a commit can succeed: the staged file is moved, or the same file is there.
abbrev IsMove : Files → Files → FilePath → CommitReceipt → Type 0
IsMove files files' staged r =
    (files' ≡ replace staged r.path files) × (r.transformed_from ≡ none → files r.path ≡ none)

abbrev IsSame : Host → Files → Files → FilePath → String → ℕ → CommitReceipt → Type 0
IsSame host files files' staged sha size r =
    (files' ≡ write staged none files)
    × (bytes : Content) × (files r.path ≡ some (regular bytes))
    × (host.sha256 bytes ≡ sha)
    × (length bytes ≡ size)

renamed : {name : Option String} {text : String} → name ≡ none → name ≡ some text → ⊥
renamed {name} {text} h e = ground arith

move-inv :
    (host : Host) (files : Files) (staged final : FilePath) (size : ℕ) (sha : String)
    (from : Option String) {r : CommitReceipt} {files' : Files}
    → move_to host files staged final size sha from ≡ (ok r, files')
    → (files' ≡ replace staged r.path files)
      × (r.path ≡ final)
      × (r.transformed_from ≡ from)
      × (r.sha256 ≡ sha)
      × (r.size ≡ size)
unfolding move_to
move-inv host files staged final size sha from {r} {files'} h =
    elim (Result-cases (host.rename staged final)) [
      | inl (x, refused) ↦ absurd (ground arith)
      | inr (tt', moved) ↦ elim (Result-cases (host.settle final)) [
        | inl (x, failed) ↦ absurd (ground arith)
        | inr (tt'', settled) ↦
            (ground arith, ground arith, ground arith, ground arith, ground arith)
      ]
    ]

beside-inv :
    (host : Host) (files : Files) (staged root final : FilePath) (relative sha : String) (size : ℕ)
    {r : CommitReceipt} {files' : Files}
    → commit_beside host files staged root final relative sha size ≡ (ok r, files')
    → IsMove files files' staged r × (r.sha256 ≡ sha) × (r.size ≡ size)
unfolding commit_beside
beside-inv host files staged root final relative sha size {r} {files'} h =
    let beside = collision_path host final sha in
    elim (Bool-cases
      (is_relative_to (host.lib.resolve files beside) (host.lib.resolve files root))) [
        | inr outside ↦ absurd (ground arith)
        | inl inside ↦
            let (moved, at, from, hash, number) =
              move-inv host files staged beside size sha (some relative) {r = r} {files' = files'}
                (ground arith) in
            ((moved, λ e. absurd (renamed e from)), hash, number)
      ]

over-inv :
    (host : Host) (files : Files) (staged root final : FilePath) (relative sha : String) (size : ℕ)
    (found : Node) {r : CommitReceipt} {files' : Files}
    → files final ≡ some found
    → commit_over host files staged root final relative sha size found ≡ (ok r, files')
    → (IsMove files files' staged r ⊎ IsSame host files files' staged sha size r)
      × (r.sha256 ≡ sha)
      × (r.size ≡ size)
unfolding commit_over
over-inv host files staged root final relative sha size symlink {r} {files'} e h = cc
over-inv host files staged root final relative sha size (directory n) {r} {files'} e h =
    let (moved, hash, length_ok) =
      beside-inv host files staged root final relative sha size {r = r} {files' = files'}
        (ground arith) in
    (inl moved, hash, length_ok)
over-inv host files staged root final relative sha size (regular bytes) {r} {files'} e h =
    elim (Bool-cases ((length bytes == size) && str_eq (host.sha256 bytes) sha)) [
      | inl same ↦ (
        inr (
          ground arith,
          bytes,
          ground arith,
          ground (arith, str_eq_iff (host.sha256 bytes) sha),
          ground arith,
        ),
        ground arith,
        ground arith,
      )
      | inr other ↦
          let (moved, hash, length_ok) =
            beside-inv host files staged root final relative sha size {r = r} {files' = files'}
              (ground arith) in
          (inl moved, hash, length_ok)
    ]

at-inv :
    (host : Host) (files : Files) (staged root final : FilePath) (relative sha : String) (size : ℕ)
    {r : CommitReceipt} {files' : Files}
    → commit_at host files staged root final relative sha size ≡ (ok r, files')
    → (IsMove files files' staged r ⊎ IsSame host files files' staged sha size r)
      × (r.sha256 ≡ sha)
      × (r.size ≡ size)
unfolding commit_at
at-inv host files staged root final relative sha size {r} {files'} h =
    elim (Option-cases (files final)) [
      | inl free ↦
          let (moved, at, from, hash, number) =
            move-inv host files staged final size sha none {r = r} {files' = files'}
              (ground arith) in
          (inl (moved, λ e. ap files at ∙ free), hash, number)
      | inr (found, taken) ↦
          over-inv host files staged root final relative sha size found taken (ground arith)
    ]

staged-inv :
    (host : Host) (files : Files) (staged root : FilePath) (relative sha : String) (size : ℕ)
    {r : CommitReceipt} {files' : Files}
    → commit_staged host files staged root relative sha size ≡ (ok r, files')
    → (final : FilePath) × (bytes : Content) × (files staged ≡ some (regular bytes))
      × (host.sha256 bytes ≡ sha)
      × (length bytes ≡ size)
      × (commit_at host files staged root final relative sha size ≡ (ok r, files'))
unfolding commit_staged
staged-inv host files staged root relative sha size {r} {files'} h =
    elim (Result-cases (check_staged host (files staged) sha size)) [
      | inl (x, refused) ↦ ground arith
      | inr (tt', checked) ↦
          elim (Result-cases (resolve_beneath host.lib files root relative false)) [
            | inl (x, refused) ↦ ground arith
            | inr (final, found) ↦ elim (Result-cases (host.mkdir final)) [
              | inl (x, full) ↦ absurd (ground arith)
              | inr (tt'', made) ↦
                  let (bytes, here, hash, length_ok) =
                    checked_bytes host (files staged) sha size checked in
                  (final, bytes, here, hash, length_ok, ground arith)
            ]
          ]
    ]

-- A successful commit to a path that is not the staged file's: the receipt's hash and size are the expected ones, the file at its path has
-- them, the staged file is gone, every other file is as it was, and unless the name was changed for
-- a collision nothing different was overwritten.
pub commit_success :
    (host : Host) (files : Files) (staged active_root : FilePath) (relative sha : String) (size : ℕ)
    {r : CommitReceipt} {files' : Files}
    → commit_staged host files staged active_root relative sha size ≡ (ok r, files')
    → path_eq staged r.path ≡ false
    → path_eq r.path staged ≡ false
    → IsCommitted host files files' staged sha size r
commit_success host files staged active_root relative sha size {r} {files'} h apart apart' =
    let (final, bytes, found, hash, length_ok, placed) =
      staged-inv host files staged active_root relative sha size h in
    let (how, receipt_hash, receipt_size) =
      at-inv host files staged active_root final relative sha size placed in
    elim how [
      | inl (moved, fresh) ↦ record {
        receipt_hash = receipt_hash;
        receipt_size = receipt_size;
        stored = (bytes, rw moved (ground (arith, path_eq_refl r.path)), hash, length_ok);
        staged_gone = rw moved (ground (arith, path_eq_refl staged));
        others_kept = λ p. elsewhere p (λ a b. rw moved (ground arith));
        not_overwritten = elim (Option-cases r.transformed_from) [
          | inl e ↦ inr (inl (fresh e))
          | inr (t, e) ↦ inl (rw e refl)
        ];
      }
      | inr (removed, old, kept, old_hash, old_size) ↦ record {
        receipt_hash = receipt_hash;
        receipt_size = receipt_size;
        stored = (old, rw removed (ground arith), old_hash, old_size);
        staged_gone = rw removed (ground (arith, path_eq_refl staged));
        others_kept = λ p. elsewhere p (λ a b. rw removed (ground arith));
        not_overwritten = inr (inr (rw removed (ground arith)));
      }
    ]
  where
    elsewhere :
        (p : FilePath)
        → (path_eq p staged ≡ false → path_eq p r.path ≡ false → files' p ≡ files p)
        → (path_eq p staged ≡ true) ⊎ ((path_eq p r.path ≡ true) ⊎ (files' p ≡ files p))
    elsewhere p kept = elim (Bool-cases (path_eq p staged)) [
      | inl e ↦ inl e
      | inr away ↦ elim (Bool-cases (path_eq p r.path)) [
        | inl e ↦ inr (inl e)
        | inr apart ↦ inr (inr (kept away apart))
      ]
    ]
