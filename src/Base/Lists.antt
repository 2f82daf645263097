-- ===== src/Base/Lists.antt =====
-- Lists measured by native numbers, membership by a Boolean test, and lists without repetition.
use mathlib.Core.List.{append_assoc}
use human_program_library.Base.{
  if◌then◌else◌, ℕ, suc, ◌+◌, ◌≤◌, ◌≡◌, refl, Bool, true, false, List, [], ◌∷◌, ◌++◌, ◌||◌, arith,
  ◌==◌,
}

module _ {ℓ} {A : Type ℓ} where
  abbrev pub length : List A → ℕ
  length [] = 0
  length (x ∷ xs) = suc (length xs)

  pub length-append : (xs ys : List A) → length (xs ++ ys) ≡ length xs + length ys
  length-append [] ys = omega arith
  length-append (x ∷ xs) ys = omega (arith, length-append xs ys)

abbrev pub sum : List ℕ → ℕ
sum [] = 0
sum (x ∷ xs) = x + sum xs

-- `contains` of a slice, or of a set.
abbrev pub contains : ℕ → List ℕ → Bool
contains a [] = false
contains a (x ∷ xs) = a == x || contains a xs

-- An entry differs from what is not in the list.
pub contains-apart :
    (a b : ℕ) (xs : List ℕ) → contains a xs ≡ true → contains b xs ≡ false → (a == b) ≡ false
contains-apart a b [] h g = absurd (cc)
contains-apart a b (x ∷ xs) h g = ground (arith, contains-apart a b xs)

-- No entry stands twice.
abbrev pub IsDistinct : List ℕ → Type 0
IsDistinct [] = Unit {0}
IsDistinct (x ∷ xs) = (contains x xs ≡ false) × IsDistinct xs

-- Every entry of the first list is in the second.
abbrev pub IsWithin : List ℕ → List ℕ → Type 0
IsWithin [] ys = Unit {0}
IsWithin (x ∷ xs) ys = (contains x ys ≡ true) × IsWithin xs ys

pub contains-append :
    (a : ℕ) (xs ys : List ℕ) → contains a (xs ++ ys) ≡ (contains a xs || contains a ys)
contains-append a [] ys = refl
contains-append a (x ∷ xs) ys = ground (arith, contains-append a xs ys)

-- An entry of a list without repetition does not stand before itself.
pub IsDistinct-middle :
    (xs : List ℕ) (a : ℕ) (ys : List ℕ) → IsDistinct (xs ++ a ∷ ys) → contains a xs ≡ false
IsDistinct-middle [] a ys h = refl
IsDistinct-middle (x ∷ xs) a ys h =
    ground (arith, IsDistinct-middle xs a ys h.1, contains-append x xs (a ∷ ys))

pub IsDistinct-regroup :
    (xs : List ℕ) (a : ℕ) (ys : List ℕ)
    → IsDistinct (xs ++ a ∷ ys)
    → IsDistinct ((xs ++ a ∷ []) ++ ys)
IsDistinct-regroup xs a ys h = rw append_assoc h

-- A list with one entry taken out.
abbrev pub remove : ℕ → List ℕ → List ℕ
remove a [] = []
remove a (x ∷ xs) = if a == x then xs else x ∷ remove a xs

pub length-remove :
    (a : ℕ) (ys : List ℕ) → contains a ys ≡ true → suc (length (remove a ys)) ≡ length ys
length-remove a [] h = cc
length-remove a (y ∷ ys) h = ground (arith, length-remove a ys)

contains-remove :
    (a b : ℕ) (ys : List ℕ)
    → contains b ys ≡ true
    → (a == b) ≡ false
    → contains b (remove a ys) ≡ true
contains-remove a b [] h ne = cc
contains-remove a b (y ∷ ys) h ne = ground (arith, contains-remove a b ys)

pub IsWithin-remove :
    (a : ℕ) (xs ys : List ℕ) → contains a xs ≡ false → IsWithin xs ys → IsWithin xs (remove a ys)
IsWithin-remove a [] ys h w = tt
IsWithin-remove a (x ∷ xs) ys h w = ground (arith, contains-remove a x ys, IsWithin-remove a xs ys)

-- A list without repetition is no longer than any list that holds its entries.
pub IsDistinct-length-le : (xs ys : List ℕ) → IsDistinct xs → IsWithin xs ys → length xs ≤ length ys
IsDistinct-length-le [] ys d w = omega arith
IsDistinct-length-le (x ∷ xs) ys d w = omega (
  arith,
  IsDistinct-length-le xs (remove x ys) d.1 (IsWithin-remove x xs ys d.0 w.1),
  length-remove x ys w.0,
)

pub IsDistinct-snoc :
    (xs : List ℕ) (a : ℕ) → contains a xs ≡ false → IsDistinct xs → IsDistinct (xs ++ a ∷ [])
IsDistinct-snoc [] a h d = (refl, tt)
IsDistinct-snoc (x ∷ xs) a h d = ground (arith, IsDistinct-snoc xs a, contains-append x xs (a ∷ []))
