-- ===== src/HashSet.antt =====
-- `std::collections::HashSet`. The order in which the source iterates over a set is unspecified;
-- here it is that of the elements.
use turtletap.Prelude.{
  ℕ, suc, ◌≤◌, ◌++◌, ◌||◌, ◌≡◌, refl, ite, Bool, true, false, List, [], ◌∷◌, arith, Key, length,
  if◌then◌else◌,
}

pub record HashSet (K : Type 0) : Type 0 where
  elements : List K

module _ {K : Type 0} where
  unfoldable pub new : HashSet K
  new = record { elements = [] }

  unfoldable pub to_list : HashSet K → List K
  to_list s = s.elements

  unfoldable pub len : HashSet K → ℕ
  len s = length s.elements

module _ {K : Type 0} ⦃k : Key K⦄ where
  unfoldable pub mem : K → List K → Bool
  mem q [] = false
  mem q (x ∷ l) = ite (k.dec x q) true (mem q l)

  erase : K → List K → List K
  erase q [] = []
  erase q (x ∷ l) = let rest = erase q l in ite (k.dec x q) rest (x ∷ rest)

  unfoldable pub contains : K → HashSet K → Bool
  unfolding mem
  contains q s = mem q s.elements

  unfoldable pub insert : K → HashSet K → HashSet K
  unfolding contains
  insert q s = if contains q s then s else record { elements = q ∷ s.elements }

  unfoldable pub remove : K → HashSet K → HashSet K
  unfolding erase
  remove q s = record { elements = erase q s.elements }

  mem-erase : (q j : K) (l : List K) → mem j (erase q l) ≡ ite (k.dec q j) false (mem j l)
  unfolding mem erase
  mem-erase q j [] = ground arith
  mem-erase q j (x ∷ l) = ground (arith, mem-erase q j l)

  pub contains-new : (q : K) → contains q new ≡ false
  unfolding contains new
  contains-new q = refl

  pub contains-insert :
      (q j : K) (s : HashSet K) → contains j (insert q s) ≡ ite (k.dec q j) true (contains j s)
  unfolding contains insert
  contains-insert q j s = ground arith

  pub contains-remove :
      (q j : K) (s : HashSet K) → contains j (remove q s) ≡ ite (k.dec q j) false (contains j s)
  unfolding contains remove
  contains-remove q j s = mem-erase q j s.elements

  pub contains-eq-mem : (q : K) (s : HashSet K) → contains q s ≡ mem q (to_list s)
  unfolding contains to_list
  contains-eq-mem q s = refl

  pub len-insert : (q : K) (s : HashSet K) → len (insert q s) ≤ suc (len s)
  unfolding insert len
  len-insert q s = ground arith

  head_is_in : (x : K) (l : List K) → mem x (x ∷ l) ≡ true
  unfolding mem
  head_is_in x l = ground arith

  -- A set without elements is empty.
  pub len_none : (s : HashSet K) → ((q : K) → contains q s ≡ true → ⊥) → len s ≡ 0
  unfolding contains len
  len_none s h = empty_of s.elements h
    where
      empty_of : (l : List K) → ((q : K) → mem q l ≡ true → ⊥) → length l ≡ 0
      empty_of [] h = refl
      empty_of (x ∷ l) h = absurd (h x (head_is_in x l))

  pub mem-append : (q : K) (xs ys : List K) → mem q (xs ++ ys) ≡ (mem q xs || mem q ys)
  unfolding mem
  mem-append q [] ys = refl
  mem-append q (x ∷ xs) ys = ground (arith, mem-append q xs ys)

pub ruleset set_laws = (contains-new, contains-insert, contains-remove)
