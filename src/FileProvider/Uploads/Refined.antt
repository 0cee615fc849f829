-- ===== src/FileProvider/Uploads/Refined.antt =====
-- The handler of request bodies (api.py: append_upload) does what `grow` promises.
use mnema.Prelude.{
  ℕ, ◌+◌, ◌≡◌, refl, sym, ap, ◌∙◌, Bool, true, false, ◌&&◌, Option, none, some, List, [], ◌∷◌, ◌++◌,
  length, length-append, ltb, leb, ◌==◌, Bool-cases, map, inl, inr, DateTime, arith,
}
use mnema.Runtime.Errors.{ok}
use mnema.Runtime.Files.{FilePath, path_eq_refl, Node, regular, symlink, directory, Files, write}
use mnema.Jobs.Models.FileProvider.{FileProviderUpload, open_, upload_status_eq}
use mnema.FileProvider.Uploads.{Reply, reply, Stream, append_bytes, append_at, append_to}
use mnema.FileProvider.Uploads.Bytes.{
  carried, ends, Growing, is_acceptable, grow, held_in, view, is_plain, replied, IsStaged,
  append_whole, append_cut,
}

append_at-is_plain :
    (path : FilePath) (offset : ℕ) (stream : Stream) (node : Option Node)
    (state : FileProviderUpload × Files)
    → is_plain node ≡ true
    → length (held_in node) ≡ offset
    → append_at path offset stream node state ≡ append_bytes path offset stream (held_in node) state
unfolding append_at
append_at-is_plain path offset stream none state plain at = refl
append_at-is_plain path offset stream (some (regular bytes)) state plain at = ground arith
append_at-is_plain path offset stream (some symlink) state plain at = ground arith
append_at-is_plain path offset stream (some (directory n)) state plain at = ground arith

-- The tests of the row.
is_at : DateTime → ℕ → FileProviderUpload → Bool
is_at now offset u =
    upload_status_eq u.status open_ && ltb now u.expires_at && u.received_size == offset

append_to_refused :
    (now : DateTime) (path : FilePath) (offset : ℕ) (stream : Stream) (u : FileProviderUpload)
    (files : Files)
    → is_at now offset u ≡ false
    → let (answer, u', files') = append_to now (ok path) offset stream (u, files) in
      (replied answer ≡ false) × (u' ≡ u) × (files' ≡ files)
unfolding append_to is_at
append_to_refused now path offset stream u files h =
    elim (Bool-cases (upload_status_eq u.status open_)) [
      | inl is_open ↦ ground arith
      | inr closed ↦ ground arith
    ]

append_to_at :
    (now : DateTime) (path : FilePath) (offset : ℕ) (stream : Stream) (u : FileProviderUpload)
    (files : Files)
    → is_at now offset u ≡ true
    → append_to now (ok path) offset stream (u, files)
      ≡ append_at path offset stream (files path) (u, files)
unfolding append_to is_at
append_to_at now path offset stream u files h = ground arith

module _ (now : DateTime) (path : FilePath) (stream : Stream) (u : FileProviderUpload)
    (files : Files) (staged : IsStaged path (u, files)) where
  fits : Bool
  fits =
      ends stream && leb (length (held_in (files path)) + length (carried stream)) u.expected_size

  append_to_bytes :
      (offset : ℕ)
      → is_at now offset u ≡ true
      → append_to now (ok path) offset stream (u, files)
        ≡ append_bytes path (length (held_in (files path))) stream (held_in (files path)) (u, files)
  unfolding is_at
  append_to_bytes offset open_there = ground (
    arith,
    append_to_at now path offset stream u files,
    append_at-is_plain path offset stream (files path) (u, files),
    staged.plain,
    staged.counted,
  )

  append_to_whole :
      (offset : ℕ)
      → is_at now offset u ≡ true
      → fits ≡ true
      → append_to now (ok path) offset stream (u, files) ≡ (
        reply (length (held_in (files path) ++ carried stream)),
        record u { received_size = length (held_in (files path) ++ carried stream) },
        write path (some (regular (held_in (files path) ++ carried stream))) files,
      )
  unfolding fits
  append_to_whole offset open_there whole =
      append_to_bytes offset open_there
      ∙ append_whole path stream (held_in (files path)) u files staged.counted staged.bounded whole

  append_to_cut :
      (offset : ℕ)
      → is_at now offset u ≡ true
      → fits ≡ false
      → let (answer, u', files') = append_to now (ok path) offset stream (u, files) in
        (replied answer ≡ false)
        × (u' ≡ u)
        × (files' ≡ write path (some (regular (held_in (files path)))) files)
  unfolding fits
  append_to_cut offset open_there cut =
      rw (append_to_bytes offset open_there)
        (append_cut path stream (held_in (files path)) u files staged.counted staged.bounded cut)

  append_keeps :
      (offset : ℕ) (state : FileProviderUpload × Files) (answer : Reply ℕ)
      → (is_at now offset u && fits) ≡ false
      → replied answer ≡ false
      → state.0 ≡ u
      → held_in (state.1 path) ≡ held_in (files path)
      → is_plain (state.1 path) ≡ true
      → (view path state ≡ grow now offset stream (view path (u, files)))
        × (replied answer ≡ is_acceptable now offset stream (view path (u, files)))
        × IsStaged path state
  unfolding is_at fits
  append_keeps offset (u', files') answer off silent same held plain = (
    ground (arith, staged.counted),
    ground (arith, staged.counted),
    record {
      plain = plain;
      counted = ground (arith, staged.counted);
      bounded = ground (arith, staged.bounded);
    },
  )

  append_grows :
      (offset : ℕ)
      → is_at now offset u ≡ true
      → fits ≡ true
      → let (answer, u', files') = append_to now (ok path) offset stream (u, files) in
        (view path (u', files') ≡ grow now offset stream (view path (u, files)))
        × (replied answer ≡ is_acceptable now offset stream (view path (u, files)))
        × IsStaged path (u', files')
  unfolding is_at fits
  append_grows offset open_there whole = rw (append_to_whole offset open_there whole) (
    ground (arith, staged.counted, path_eq_refl path),
    ground (arith, staged.counted),
    record {
      plain = ground (arith, path_eq_refl path);
      counted = ground (arith, path_eq_refl path);
      bounded = ground (arith, length-append (held_in (files path)) (carried stream));
    },
  )

append_refines :
    (now : DateTime) (path : FilePath) (offset : ℕ) (stream : Stream)
    (state : FileProviderUpload × Files)
    → IsStaged path state
    → let (answer, u, files) = append_to now (ok path) offset stream state in
      (view path (u, files) ≡ grow now offset stream (view path state))
      × (replied answer ≡ is_acceptable now offset stream (view path state))
      × IsStaged path (u, files)
append_refines now path offset stream (u, files) staged = elim (Bool-cases (is_at now offset u)) [
  | inr off ↦
      let (silent, same_row, same_files) = append_to_refused now path offset stream u files off in
      append_keeps now path stream u files staged offset
        (
          (append_to now (ok path) offset stream (u, files)).1,
          (append_to now (ok path) offset stream (u, files)).2,
        )
        (append_to now (ok path) offset stream (u, files)).0 (ground arith) silent same_row
        (ground arith) (ground (arith, staged.plain))
  | inl on ↦ elim (Bool-cases (fits now path stream u files staged)) [
    | inr cut ↦
        let (silent, same_row, same_files) =
          append_to_cut now path stream u files staged offset on cut in
        append_keeps now path stream u files staged offset
          (
            (append_to now (ok path) offset stream (u, files)).1,
            (append_to now (ok path) offset stream (u, files)).2,
          )
          (append_to now (ok path) offset stream (u, files)).0 (ground arith) silent same_row
          (ground (arith, path_eq_refl path)) (ground (arith, path_eq_refl path))
    | inl whole ↦ append_grows now path stream u files staged offset on whole
  ]
]

-- Requests for one upload, each with its time, its offset and its body, one after another.
abbrev pub serve :
    FilePath
    → List (DateTime × ℕ × Stream)
    → FileProviderUpload × Files
    → List (Reply ℕ) × FileProviderUpload × Files
serve path [] (u, files) = ([], u, files)
serve path ((now, offset, stream) ∷ requests) (u, files) =
    let (answer, u', files') = append_to now (ok path) offset stream (u, files) in
    let (answers, u'', files'') = serve path requests (u', files') in
    (answer ∷ answers, u'', files'')

abbrev pub replay : List (DateTime × ℕ × Stream) → Growing → List Bool × Growing
replay [] g = ([], g)
replay ((now, offset, stream) ∷ requests) g =
    let (taken, g') = replay requests (grow now offset stream g) in
    (is_acceptable now offset stream g ∷ taken, g')

-- Any requests for an upload whose row counts its staged bytes, whatever their offsets, their bodies
-- and their lost connections, are answered as `grow` promises and leave the bytes that it promises,
-- and the row counts them again.
pub serve_refines :
    (path : FilePath) (requests : List (DateTime × ℕ × Stream)) (state : FileProviderUpload × Files)
    → IsStaged path state
    → let (answers, u, files) = serve path requests state in
      ((map replied answers, view path (u, files)) ≡ replay requests (view path state))
      × IsStaged path (u, files)
serve_refines path [] state staged = (refl, staged)
serve_refines path ((now, offset, stream) ∷ requests) (u, files) staged =
    let (same_view, same_answer, staged') =
      append_refines now path offset stream (u, files) staged in
    let (later, kept) =
      serve_refines path requests
        (
          (append_to now (ok path) offset stream (u, files)).1,
          (append_to now (ok path) offset stream (u, files)).2,
        )
        staged' in
    let first = (append_to now (ok path) offset stream (u, files)).0 in
    (
      rw (sym same_view, sym same_answer) (ap (λ rest. (replied first ∷ rest.0, rest.1)) later),
      kept,
    )
