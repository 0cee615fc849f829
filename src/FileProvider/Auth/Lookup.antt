-- ===== src/FileProvider/Auth/Lookup.antt =====
-- The row that a query of auth.py finds after a change to the row that it found before.
use mnema.Prelude.{◌≤◌, ◌≡◌, refl, Bool, true, false, none, some, List, [], ◌∷◌, find, count, arith}
use mnema.FileProvider.Auth.{update_first}

module _ {A : Type 0} (p : A → Bool) (f : A → A) where
  -- A change that keeps the test is what the query finds next.
  pub find-update_first :
      (xs : List A) {x : A}
      → p (f x) ≡ true
      → find p xs ≡ some x
      → find p (update_first p f xs) ≡ some (f x)
  find-update_first [] keeps h = cc
  find-update_first (y ∷ ys) {x} keeps h = ground (arith, find-update_first ys {x = x})

  find-none : (xs : List A) → count p xs ≡ 0 → find p xs ≡ none
  find-none [] h = refl
  find-none (x ∷ xs) h = ground (arith, find-none xs)

  -- Where one row passes, a change that fails the test leaves none.
  pub find-update_first-none :
      (xs : List A) {x : A}
      → count p xs ≤ 1
      → p (f x) ≡ false
      → find p xs ≡ some x
      → find p (update_first p f xs) ≡ none
  find-update_first-none [] unique fails h = cc
  find-update_first-none (y ∷ ys) {x} unique fails h =
      ground (arith, find-update_first-none ys {x = x}, find-none ys)
