-- ===== src/Domain/Storage/Beneath.antt =====
-- What a path that storage.py accepts guarantees.
use mnema.Prelude.{◌≡◌, true, false, some, List, [], ◌∷◌, ◌++◌, String, arith}
use mathlib.Core.List.{append_assoc}
use mnema.Runtime.Errors.{ok}
use mnema.Runtime.Files.{FilePath, Files, is_symlink}
use mnema.Domain.Storage.{Pathlib, meets_symlink, resolve_beneath}

step_in :
    (root : FilePath) (p : String) (rest : List String)
    → (root ++ p ∷ []) ++ rest ≡ root ++ (p ∷ rest)
step_in root p rest = append_assoc root (p ∷ []) rest

link_free :
    (files : Files) (root : FilePath) (parts taken : List String) (part : String)
    (left : List String)
    → meets_symlink files root parts ≡ false
    → parts ≡ taken ++ part ∷ left
    → is_symlink (files (root ++ (taken ++ part ∷ []))) ≡ false
unfolding meets_symlink
link_free files root [] [] part left h e = cc
link_free files root [] (t ∷ taken) part left h e = cc
link_free files root (p ∷ parts) [] part left h e = ground arith
link_free files root (p ∷ parts) (t ∷ taken) part left h e =
    let same : t ≡ p = cc in
    rw (same, ← step_in root p (taken ++ part ∷ []))
      (link_free files (root ++ p ∷ []) parts taken part left (ground arith) (cc))

-- A path that is accepted under `must_exist` is the strict resolution of the root's parts followed by
-- the text's, and at none of the steps that those parts take below the root is there a link.
pub resolve_beneath_link_free :
    (lib : Pathlib) (files : Files) (root : FilePath) (relative : String) {base path : FilePath}
    (taken : List String) (part : String) (left : List String)
    → resolve_beneath lib files root relative true ≡ ok path
    → lib.resolve_strict files root ≡ some base
    → (lib.parse relative).parts ≡ taken ++ part ∷ left
    → (lib.resolve_strict files (base ++ (lib.parse relative).parts) ≡ some path)
      × (is_symlink (files (base ++ (taken ++ part ∷ []))) ≡ false)
unfolding resolve_beneath
resolve_beneath_link_free lib files root relative {base} {path} taken part left h found split = (
  ground arith,
  link_free files base (lib.parse relative).parts taken part left (ground arith) split,
)
