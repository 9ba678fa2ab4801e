-- ===== src/Prelude/Lists.antt =====
-- Lists measured by native numbers, under the library's names, and the loops over lists that the
-- program's comprehensions and `for` statements become.
use Prim.Native.Nat.{ℕ, zero, suc, ◌+◌, ◌-◌, ◌≤◌}
use mathlib.Core.Path.{◌≡◌, ap, refl}
use mathlib.Core.Bool.{Bool, true, false, ◌||◌, ◌&&◌}
use mathlib.Core.List.{List, [], ◌∷◌, ◌++◌, reverse, reverse_aux}
use mathlib.Core.Logic.{◌↔◌}
use native.Mathlib.Nat.{zero-add, add-zero, suc-add}
use native.Mathlib.Omega.{arith}
use caqrs.Prelude.Tests.{if◌then◌else◌}

module _ {ℓ} {A : Type ℓ} where
  abbrev pub length : List A → ℕ
  length [] = 0
  length (x ∷ xs) = suc (length xs)

  abbrev pub drop : ℕ → List A → List A
  drop zero xs = xs
  drop (suc n) [] = []
  drop (suc n) (x ∷ xs) = drop n xs

  abbrev pub take : ℕ → List A → List A
  take zero xs = []
  take (suc n) [] = []
  take (suc n) (x ∷ xs) = x ∷ take n xs

  pub length-append : (xs ys : List A) → length (xs ++ ys) ≡ length xs + length ys
  length-append [] ys = omega arith
  length-append (x ∷ xs) ys = omega (arith, length-append xs ys)

  pub length-drop : (n : ℕ) (xs : List A) → length (drop n xs) ≡ length xs - n
  length-drop zero xs = omega arith
  length-drop (suc n) [] = omega arith
  length-drop (suc n) (x ∷ xs) = omega (arith, length-drop n xs)

  pub length-take-le : (n : ℕ) (xs : List A) → length (take n xs) ≤ n
  length-take-le zero xs = omega arith
  length-take-le (suc n) [] = omega arith
  length-take-le (suc n) (x ∷ xs) = omega (arith, length-take-le n xs)

  -- `[x for x in xs if p(x)]`, by a Boolean test.
  abbrev pub filter : (A → Bool) → List A → List A
  filter p [] = []
  filter p (x ∷ xs) = let rest = filter p xs in if p x then x ∷ rest else rest

  -- `sum(1 for x in xs if p(x))`
  abbrev pub count : (A → Bool) → List A → ℕ
  count p [] = 0
  count p (x ∷ xs) = let rest = count p xs in if p x then suc rest else rest

  -- How many elements from the front pass, up to the first that does not.
  abbrev pub streak : (A → Bool) → List A → ℕ
  streak p [] = 0
  streak p (x ∷ xs) = let rest = streak p xs in if p x then suc rest else 0

  -- `any` and `all` of Python, by a Boolean test.
  abbrev pub any : (A → Bool) → List A → Bool
  any p [] = false
  any p (x ∷ xs) = p x || any p xs

  abbrev pub all : (A → Bool) → List A → Bool
  all p [] = true
  all p (x ∷ xs) = p x && all p xs

  -- Every element satisfies the predicate; computes to a tuple.
  abbrev pub All {κ} : (A → Type κ) → List A → Type κ
  All P [] = Unit
  All P (x ∷ xs) = P x × All P xs

pub and-parts : (a b : Bool) → (a && b) ≡ true → (a ≡ true) × (b ≡ true)
and-parts a b h = (ground arith, ground arith)

module _ {ℓ} {A : Type ℓ} where
  pub filter-append :
      (p : A → Bool) (xs ys : List A) → filter p (xs ++ ys) ≡ filter p xs ++ filter p ys
  filter-append p [] ys = refl
  filter-append p (x ∷ xs) ys = ground (arith, filter-append p xs ys)

  -- A streak is at least `n` long exactly when the first `n` elements are there and pass.
  pub le-streak :
      (p : A → Bool) (n : ℕ) (xs : List A)
      → (n ≤ streak p xs) ↔ ((n ≤ length xs) × (all p (take n xs) ≡ true))
  le-streak p zero xs = (λ h. (omega arith, refl), λ h. omega arith)
  le-streak p (suc n) [] = (λ h. absurd (omega arith), λ h. absurd (omega arith))
  le-streak p (suc n) (x ∷ xs) =
      let (fwd, back) = le-streak p n xs in (λ h. ground (arith, fwd), λ h. ground (arith, back))

  pub streak-le-length : (p : A → Bool) (xs : List A) → streak p xs ≤ length xs
  streak-le-length p [] = omega arith
  streak-le-length p (x ∷ xs) = ground (arith, streak-le-length p xs)

  pub count-le-length : (p : A → Bool) (xs : List A) → count p xs ≤ length xs
  count-le-length p [] = omega arith
  count-le-length p (x ∷ xs) = ground (arith, count-le-length p xs)

  pub count-append : (p : A → Bool) (xs ys : List A) → count p (xs ++ ys) ≡ count p xs + count p ys
  count-append p [] ys = omega arith
  count-append p (x ∷ xs) ys = ground (arith, count-append p xs ys)

  pub drop-drop : (k m : ℕ) (xs : List A) → drop m (drop k xs) ≡ drop (k + m) xs
  drop-drop zero m xs = rw zero-add
  drop-drop (suc k) zero [] = rw add-zero
  drop-drop (suc k) (suc m) [] = rw suc-add
  drop-drop (suc k) m (x ∷ xs) = rw suc-add (drop-drop k m xs)

  pub drop-append_of_le :
      (k : ℕ) (xs ys : List A) → k ≤ length xs → drop k xs ++ ys ≡ drop k (xs ++ ys)
  drop-append_of_le zero xs ys h = refl
  drop-append_of_le (suc k) [] ys h = absurd (omega arith)
  drop-append_of_le (suc k) (x ∷ xs) ys h = drop-append_of_le k xs ys (omega arith)

  -- All the elements pass a test exactly when they all have the property that it decides.
  pub all-All {κ} :
      (p : A → Bool) (P : A → Type κ) (decides : (x : A) → (p x ≡ true) ↔ P x) (xs : List A)
      → (all p xs ≡ true) ↔ All P xs
  all-All p P decides [] = (λ _. tt, λ _. refl)
  all-All p P decides (x ∷ xs) =
      let (there, back) = all-All p P decides xs in
      (
        λ h. let (a, b) = and-parts (p x) (all p xs) h in ((decides x).0 a, there b),
        λ h. rw ((decides x).1 h.0, back h.1),
      )

  length-reverse_aux : (xs ys : List A) → length (reverse_aux xs ys) ≡ length xs + length ys
  length-reverse_aux [] ys = omega arith
  length-reverse_aux (x ∷ xs) ys = omega (arith, length-reverse_aux xs (x ∷ ys))

  pub length-reverse : (xs : List A) → length (reverse xs) ≡ length xs
  length-reverse xs = omega (arith, length-reverse_aux xs [])

  -- A long enough streak, in terms of the elements.
  pub streak_iff {κ} :
      (p : A → Bool) (P : A → Type κ) (decides : (x : A) → (p x ≡ true) ↔ P x) (n : ℕ) (xs : List A)
      → (n ≤ streak p xs) ↔ ((n ≤ length xs) × All P (take n xs))
  streak_iff p P decides n xs =
      let (run, back) = le-streak p n xs in
      let (holds, passes) = all-All p P decides (take n xs) in
      (λ h. let (size, pass) = run h in (size, holds pass), λ h. back (h.0, passes h.1))

  -- The length of a history whose newest element is known.
  pub length_newest :
      (xs : List A) (last : A) (rest : List A)
      → reverse xs ≡ last ∷ rest
      → length xs ≡ length (last ∷ rest)
  length_newest xs last rest newest = omega (arith, length-reverse xs, ap length newest)
