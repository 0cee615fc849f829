-- ===== src/FileProvider/Uploads/Bytes.antt =====
-- The staged bytes of an upload (api.py: append_upload), against what the handler promises: the bytes
-- grow by whole request bodies, in order, up to the declared size.
use mnema.Prelude.{
  ℕ, ◌+◌, ◌-◌, ◌≤◌, ◌≡◌, refl, sym, Bool, true, false, ◌&&◌, Option, none, some, [], ◌∷◌, ◌++◌,
  take, length, length-append, ltb, leb, ◌==◌, if◌then◌else◌, is_none, Option-cases, inl, inr,
  DateTime, arith,
}
use mathlib.Core.List.{append_assoc, append-nil}
use mnema.Runtime.Files.{FilePath, Content, Node, regular, Files, write}
use mnema.Jobs.Models.FileProvider.{FileProviderUpload, open_, upload_status_eq}
use mnema.FileProvider.Uploads.{
  Reply, reply, Stream, finished, lost, chunk, receive, truncate, append_bytes,
}

-- All the bytes that a stream carries, and whether it ends.
abbrev pub carried : Stream → Content
carried finished = []
carried lost = []
carried (chunk bytes rest) = bytes ++ carried rest

abbrev pub ends : Stream → Bool
ends finished = true
ends lost = false
ends (chunk bytes rest) = ends rest

-- An upload as a phone may think of it.
pub record Growing : Type 0 where
  pub bytes : Content
  pub expected : ℕ
  pub is_open : Bool
  pub closes : DateTime

-- The promise: a body at the right offset that arrives whole and fits is added, and any other request
-- changes nothing.
abbrev pub is_acceptable : DateTime → ℕ → Stream → Growing → Bool
is_acceptable now offset stream g =
    g.is_open
    && ltb now g.closes
    && offset == length g.bytes
    && ends stream
    && leb (length g.bytes + length (carried stream)) g.expected

abbrev pub grow : DateTime → ℕ → Stream → Growing → Growing
grow now offset stream g =
    if is_acceptable now offset stream g then record g { bytes = g.bytes ++ carried stream } else g

abbrev pub held_in : Option Node → Content
held_in (some (regular bytes)) = bytes
held_in _ = []

abbrev pub view : FilePath → FileProviderUpload × Files → Growing
view path (u, files) = record {
  bytes = held_in (files path);
  expected = u.expected_size;
  is_open = upload_status_eq u.status open_;
  closes = u.expires_at;
}

abbrev pub is_plain : Option Node → Bool
is_plain none = true
is_plain (some (regular bytes)) = true
is_plain _ = false

abbrev pub replied : Reply ℕ → Bool
replied (reply n) = true
replied _ = false

-- The row counts the staged bytes.
pub record IsStaged (path : FilePath) (state : FileProviderUpload × Files) : Type 0 where
  pub plain : is_plain (state.1 path) ≡ true
  pub counted : state.0.received_size ≡ length (held_in (state.1 path))
  pub bounded : state.0.received_size ≤ state.0.expected_size

receive_fails :
    (expected offset : ℕ) (written : Content) (stream : Stream)
    → offset + length written ≤ expected
    → is_none (receive expected offset written stream).0
      ≡ (ends stream && leb (offset + length written + length (carried stream)) expected)
unfolding receive
receive_fails expected offset written finished h = ground arith
receive_fails expected offset written lost h = refl
receive_fails expected offset written (chunk bytes rest) h = ground (
  arith,
  receive_fails expected offset (written ++ bytes) rest,
  length-append written bytes,
  length-append bytes (carried rest),
)

receive_reply :
    (expected offset : ℕ) (written : Content) (stream : Stream) {answer : Reply ℕ}
    → (receive expected offset written stream).0 ≡ some answer
    → replied answer ≡ false
unfolding receive
receive_reply expected offset written finished {answer} h = ground arith
receive_reply expected offset written lost {answer} h = ground arith
receive_reply expected offset written (chunk bytes rest) {answer} h =
    ground (arith, receive_reply expected offset (written ++ bytes) rest {answer = answer})

receive_all :
    (expected offset : ℕ) (written : Content) (stream : Stream)
    → (receive expected offset written stream).0 ≡ none
    → (receive expected offset written stream).1 ≡ written ++ carried stream
unfolding receive
receive_all expected offset written finished h = sym (append-nil written)
receive_all expected offset written lost h = cc
receive_all expected offset written (chunk bytes rest) h = ground (
  arith,
  receive_all expected offset (written ++ bytes) rest,
  append_assoc written bytes (carried rest),
)

take-length : (xs ys : Content) → take (length xs) (xs ++ ys) ≡ xs
take-length [] ys = refl
take-length (x ∷ xs) ys = ground (arith, take-length xs ys)

-- Truncating to what was there before undoes the writes.
truncate_back : (held more : Content) → truncate (length held) (held ++ more) ≡ held
truncate_back held more =
    let none_missing : length held - length (held ++ more) ≡ 0 =
      omega (arith, length-append held more) in
    rw (none_missing, take-length held more) (append-nil held)

module _ (path : FilePath) (stream : Stream) (held : Content) (u : FileProviderUpload)
    (files : Files) (counted : u.received_size ≡ length held)
    (bounded : u.received_size ≤ u.expected_size) where
  pub append_whole :
      (ends stream && leb (length held + length (carried stream)) u.expected_size) ≡ true
      → append_bytes path (length held) stream held (u, files) ≡ (
        reply (length (held ++ carried stream)),
        record u { received_size = length (held ++ carried stream) },
        write path (some (regular (held ++ carried stream))) files,
      )
  unfolding append_bytes
  append_whole fits = elim (Option-cases (receive u.expected_size (length held) [] stream).0) [
    | inl whole ↦ ground (
      arith,
      receive_all u.expected_size (length held) [] stream,
      length-append held (carried stream),
    )
    | inr (answer, failed) ↦
        absurd (ground (arith, receive_fails u.expected_size (length held) [] stream))
  ]

  pub append_cut :
      (ends stream && leb (length held + length (carried stream)) u.expected_size) ≡ false
      → let (answer, u', files') = append_bytes path (length held) stream held (u, files) in
        (replied answer ≡ false) × (u' ≡ u) × (files' ≡ write path (some (regular held)) files)
  unfolding append_bytes
  append_cut cut = elim (Option-cases (receive u.expected_size (length held) [] stream).0) [
    | inl whole ↦ absurd (ground (arith, receive_fails u.expected_size (length held) [] stream))
    | inr (answer, failed) ↦ (
      ground (arith, receive_reply u.expected_size (length held) [] stream {answer = answer}),
      ground arith,
      ground (arith, truncate_back held (receive u.expected_size (length held) [] stream).1),
    )
  ]
