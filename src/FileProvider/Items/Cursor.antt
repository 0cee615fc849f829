-- ===== src/FileProvider/Items/Cursor.antt =====
-- The cursors of the log of changes (src/mnema/file_provider/service.py: encode_cursor and
-- decode_cursor). A text is the list of its characters' codes; base64 and JSON are parameters.
use mnema.Prelude.{
  ℕ, zero, suc, ◌+◌, ◌-◌, ◌%◌, ◌≤◌, ◌≡◌, refl, sym, ap, ◌∙◌, Bool, true, false, ◌&&◌, Option, none,
  some, [], ◌∷◌, ◌++◌, length, length-append, ◌==◌, if◌then◌else◌, String, arith,
}
use mnema.Runtime.Errors.{value_error, Result, ok, err}
use mnema.Runtime.Files.{Content}

-- `json.dumps` of the two fields, encoded; `json.loads` of decoded bytes, where it gives a text as "g"
-- and a number that is not negative as "s"; `urlsafe_b64encode`, and `urlsafe_b64decode`, which may raise
-- `ValueError`.
pub record Codec : Type 0 where
  pub dumps : String → ℕ → Content
  pub loads : Content → Option (String × ℕ)
  pub b64encode : Content → Content
  pub b64decode : Content → Option Content

abbrev pub is_nil : Content → Bool
is_nil [] = true
is_nil (b ∷ bytes) = false

-- `text.rstrip("=")`
unfoldable pub rstrip : Content → Content
rstrip [] = []
rstrip (b ∷ bytes) = let rest = rstrip bytes in if is_nil rest && b == b'=' then [] else b ∷ rest

-- `"=" * n`
abbrev pub equals : ℕ → Content
equals zero = []
equals (suc n) = b'=' ∷ equals n

-- `-n % 4`
abbrev pub missing : ℕ → ℕ
missing n = (4 - n % 4) % 4

-- `encode_cursor`
unfoldable pub encode_cursor : Codec → String → ℕ → Content
unfolding rstrip
encode_cursor c generation sequence = rstrip (c.b64encode (c.dumps generation sequence))

-- `decode_cursor`
unfoldable pub decode_cursor : Codec → Content → Result (String × ℕ)
decode_cursor c cursor = elim (c.b64decode (cursor ++ equals (missing (length cursor)))) [
  | none ↦ err (value_error "invalid change cursor")
  | some payload ↦ elim (c.loads payload) [
    | none ↦ err (value_error "invalid change cursor")
    | some (generation, sequence) ↦ ok (generation, sequence)
  ]
]

rstrip-equals : (k : ℕ) → rstrip (equals k) ≡ []
unfolding rstrip
rstrip-equals zero = refl
rstrip-equals (suc k) = ground (arith, rstrip-equals k)

rstrip-append : (bytes : Content) (k : ℕ) → rstrip (bytes ++ equals k) ≡ rstrip bytes
unfolding rstrip
rstrip-append [] k = rstrip-equals k
rstrip-append (b ∷ bytes) k = ground (arith, rstrip-append bytes k)

length-equals : (k : ℕ) → length (equals k) ≡ k
length-equals zero = refl
length-equals (suc k) = omega (arith, length-equals k)

missing_lem : (n k : ℕ) → (n + k) % 4 ≡ 0 → k ≤ 2 → missing n ≡ k
missing_lem n k h few = omega arith

-- A cursor that was encoded is decoded to the generation and the sequence that it was made of, where JSON
-- and base64 give back what they were given, and base64 gives a number of characters that four divides,
-- of which at most two are "=", at the end.
pub decode_cursor-encode_cursor :
    (c : Codec) (generation : String) (sequence : ℕ) (body : Content) (k : ℕ)
    → c.loads (c.dumps generation sequence) ≡ some (generation, sequence)
    → c.b64decode (c.b64encode (c.dumps generation sequence)) ≡ some (c.dumps generation sequence)
    → c.b64encode (c.dumps generation sequence) ≡ body ++ equals k
    → rstrip body ≡ body
    → k ≤ 2
    → length (c.b64encode (c.dumps generation sequence)) % 4 ≡ 0
    → decode_cursor c (encode_cursor c generation sequence) ≡ ok (generation, sequence)
unfolding decode_cursor encode_cursor
decode_cursor-encode_cursor c generation sequence body k json base64 shape whole few quarter =
    let stripped : encode_cursor c generation sequence ≡ body =
      ap rstrip shape ∙ rstrip-append body k ∙ whole in
    let padded : missing (length body) ≡ k =
      missing_lem (length body) k
        (ap (λ n. n % 4)
            (sym (
              ap length shape
              ∙ length-append body (equals k)
              ∙ ap (λ n. length body + n) (length-equals k)))
          ∙ quarter)
        few in
    rw (stripped, decode_cursor, padded, sym shape, base64, json) refl
