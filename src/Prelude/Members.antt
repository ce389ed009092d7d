-- ===== src/Prelude/Members.antt =====
-- Slices: membership, search, repetition, and a loop that a `?` or a `return` may leave.
use mathlib.Core.Bool.{Bool, true, false, ◌&&◌, ◌||◌}
use mathlib.Core.List.{List, [], ◌∷◌, ◌++◌}
use mathlib.Core.Logic.{◌↔◌, ◌⊎◌, inl, inr}
use mathlib.Core.Option.{Option, none, some}
use mathlib.Core.Path.{◌≡◌, refl, subst, ap, sym}
use native.Mathlib.Omega.{arith}
use turtletap.Prelude.Keys.{Key}
use turtletap.Prelude.Results.{Result, ok, err}
use turtletap.Prelude.Fallible.{◌>>◌, >>-ok, >>-err}
use turtletap.Prelude.Tests.{if◌then◌else◌, Bool-cases}

module _ {A : Type 0} ⦃K : Key A⦄ where
  unfoldable pub same : A → A → Bool
  same x y = elim (K.dec x y) [ yes _ ↦ true | no _ ↦ false ]

  unfoldable pub has : List A → A → Bool
  unfolding same
  has [] x = false
  has (y ∷ ys) x = same y x || has ys x

  -- The first value that stands again further on.
  unfoldable pub duplicate : List A → Option A
  unfolding has
  duplicate [] = none
  duplicate (x ∷ xs) = let rest = duplicate xs in if has xs x then some x else rest

  abbrev pub Distinct : List A → Type 0
  Distinct [] = Unit {0}
  Distinct (x ∷ xs) = (has xs x ≡ false) × Distinct xs

  pub same_iff : (x y : A) → (same x y ≡ true) ↔ (x ≡ y)
  unfolding same
  same_iff x y = grind arith

  pub duplicate-Distinct : (xs : List A) → (duplicate xs ≡ none) ↔ Distinct xs
  unfolding duplicate
  duplicate-Distinct [] = ground arith
  duplicate-Distinct (x ∷ xs) = ground (arith, duplicate-Distinct xs)

module _ {A : Type 0} where
  unfoldable pub find : (A → Bool) → List A → Option A
  find p [] = none
  find p (x ∷ xs) = let rest = find p xs in if p x then some x else rest

  unfoldable pub filter : (A → Bool) → List A → List A
  filter p [] = []
  filter p (x ∷ xs) = let rest = filter p xs in if p x then x ∷ rest else rest

module _ {A E : Type 0} where
  -- `for x in xs { f(x)?; }`
  unfoldable pub each : (A → Result E (Unit {0})) → List A → Result E (Unit {0})
  each f [] = ok tt
  each f (x ∷ xs) = f x >> each f xs

module _ {A : Type 0} ⦃K : Key A⦄ where
  pub has-head : (y : A) (ys : List A) → has (y ∷ ys) y ≡ true
  unfolding has
  has-head y ys = ground (arith, same_iff y y)

  pub has-tail : (y : A) (ys : List A) (x : A) → has ys x ≡ true → has (y ∷ ys) x ≡ true
  unfolding has
  has-tail y ys x h = ground arith

-- Lemmas: what a loop that ends has checked, and where one that does not has stopped.
module _ {A E : Type 0} ⦃K : Key A⦄ where
  pub each-ok :
      (f : A → Result E (Unit {0})) (xs : List A)
      → each f xs ≡ ok tt
      → (x : A) → has xs x ≡ true
      → f x ≡ ok tt
  unfolding each has same
  each-ok f [] h x at = ground arith
  each-ok f (y ∷ ys) h x at =
      let (first, rest) = >>-ok (f y) (each f ys) tt h in
      elim (Bool-cases (same y x)) [
        | inl here ↦ subst (λ z. f z ≡ ok tt) ((same_iff y x).0 here) first
        | inr away ↦ each-ok f ys rest x (ground arith)
      ]

  pub each-intro :
      (f : A → Result E (Unit {0})) (xs : List A)
      → ((x : A) → has xs x ≡ true → f x ≡ ok tt)
      → each f xs ≡ ok tt
  unfolding each has same
  each-intro f [] h = refl
  each-intro f (y ∷ ys) h =
      rw (h y (has-head y ys)) (each-intro f ys (λ x at. h x (has-tail y ys x at)))

  pub each-err :
      (f : A → Result E (Unit {0})) (xs : List A) (e : E)
      → each f xs ≡ err e
      → (x : A) × (has xs x ≡ true) × (f x ≡ err e)
  unfolding each has same
  each-err f [] e h = cc h
  each-err f (y ∷ ys) e h = elim (>>-err (f y) (each f ys) e h) [
    | inl first ↦ (y, has-head y ys, first)
    | inr (_, rest) ↦ let (x, at, bad) = each-err f ys e rest in (x, has-tail y ys x at, bad)
  ]

module _ {A : Type 0} ⦃K : Key A⦄ where
  pub has-filter : (p : A → Bool) (xs : List A) (x : A) → has (filter p xs) x ≡ has xs x && p x
  unfolding filter has same
  has-filter p [] x = refl
  has-filter p (y ∷ ys) x = ground (arith, has-filter p ys x, same_iff y x)

  pub filter-Distinct : (p : A → Bool) (xs : List A) → Distinct xs → Distinct (filter p xs)
  unfolding filter
  filter-Distinct p [] h = h
  filter-Distinct p (x ∷ xs) h = ground (arith, has-filter p xs x, filter-Distinct p xs)

  pub find-none :
      (p : A → Bool) (xs : List A) → find p xs ≡ none → (x : A) → has xs x ≡ true → p x ≡ false
  unfolding find has
  find-none p [] h x at = ground arith
  find-none p (y ∷ ys) h x at = ground (arith, find-none p ys (ground arith) x, same_iff y x)

  pub find-some :
      (p : A → Bool) (xs : List A) (x : A) → find p xs ≡ some x → (has xs x ≡ true) × (p x ≡ true)
  unfolding find has
  find-some p [] x h = cc h
  find-some p (y ∷ ys) x h = ground (arith, find-some p ys x, same_iff y x)

  pub has-cases :
      (y : A) (ys : List A) (x : A) → has (y ∷ ys) x ≡ true → (y ≡ x) ⊎ (has ys x ≡ true)
  unfolding has
  has-cases y ys x h = ground (arith, same_iff y x)

  -- The value that stands twice, with the place of its first copy.
  abbrev pub Repeated : List A → A → Type 0
  Repeated xs x = (ys zs : List A) × (xs ≡ ys ++ x ∷ zs) × (has zs x ≡ true)

  pub duplicate-Repeated : (xs : List A) (x : A) → duplicate xs ≡ some x → Repeated xs x
  unfolding duplicate
  duplicate-Repeated [] x h = cc h
  duplicate-Repeated (y ∷ xs) x h = elim (Bool-cases (has xs y)) [
    | inl twice ↦ let first : y ≡ x = ground arith in ([], xs, rw first refl, rw (sym first) twice)
    | inr once ↦
        let (ys, zs, at, again) = duplicate-Repeated xs x (ground arith) in
        (y ∷ ys, zs, ap (◌∷◌ y) at, again)
  ]
