-- ===== src/Runtime/Files.antt =====
-- Paths and a file system, as far as the program looks at them. A path is the list of its parts
-- below the root of the file system.
use mnema.Prelude.{
  ℕ, ◌≡◌, refl, Bool, true, false, ◌&&◌, Option, none, some, List, [], ◌∷◌, length, String, str_eq,
  str_eq_iff, ◌==◌, if◌then◌else◌, arith,
}

abbrev pub FilePath : Type 0
FilePath = List String

abbrev pub path_eq : FilePath → FilePath → Bool
path_eq [] [] = true
path_eq [] (b ∷ bs) = false
path_eq (a ∷ as') [] = false
path_eq (a ∷ as') (b ∷ bs) = str_eq a b && path_eq as' bs

pub path_eq_sound : (p q : FilePath) → path_eq p q ≡ true → p ≡ q
path_eq_sound [] [] h = refl
path_eq_sound [] (b ∷ bs) h = cc
path_eq_sound (a ∷ as') [] h = cc
path_eq_sound (a ∷ as') (b ∷ bs) h = ground (arith, str_eq_iff a b, path_eq_sound as' bs)

pub path_eq_refl : (p : FilePath) → path_eq p p ≡ true
path_eq_refl [] = refl
path_eq_refl (a ∷ as') = ground (arith, str_eq_iff a a, path_eq_refl as')

-- `path.is_relative_to(root)`
abbrev pub is_relative_to : FilePath → FilePath → Bool
is_relative_to path [] = true
is_relative_to [] (r ∷ root) = false
is_relative_to (p ∷ path) (r ∷ root) = str_eq p r && is_relative_to path root

-- A file's bytes.
abbrev pub Content : Type 0
Content = List ℕ

pub data Node : Type 0 where
  regular : Content → Node
  symlink : Node
  directory : ℕ → Node  -- with its `st_size`

abbrev pub Files : Type 0
Files = FilePath → Option Node

-- `path.exists()` of a name that is no dangling link, `path.is_symlink()` and `path.is_file()` of a
-- name that is no link.
abbrev pub exists : Option Node → Bool
exists none = false
exists (some node) = true

abbrev pub is_symlink : Option Node → Bool
is_symlink (some symlink) = true
is_symlink _ = false

abbrev pub content : Option Node → Option Content
content (some (regular bytes)) = some bytes
content _ = none

-- `path.stat().st_size == size`
abbrev pub has_size : Option Node → ℕ → Bool
has_size (some (regular bytes)) size = length bytes == size
has_size (some (directory n)) size = n == size
has_size _ size = false

-- `path.unlink()` and `os.replace(source, target)`.
abbrev pub write : FilePath → Option Node → Files → Files
write path node files p = if path_eq p path then node else files p

abbrev pub replace : FilePath → FilePath → Files → Files
replace source target files =
    if path_eq source target then files else write source none (write target (files source) files)
