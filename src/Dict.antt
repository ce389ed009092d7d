-- ===== src/Dict.antt =====
-- `std::collections::HashMap`. Clients see the operations and their laws. The order in which the
-- source iterates over a map is unspecified; here it is that of the entries.
use mathlib.Core.Option
use turtletap.Prelude.{
  ℕ, suc, ◌≤◌, ◌<◌, length, if◌then◌else◌, ◌≡◌, refl, ite, Bool, true, false, Option, none, some,
  List, [], ◌∷◌, map, arith, Key, any, Every, any-elim, Option-cases, inl, inr,
}

pub record Dict (K V : Type 0) : Type 0 where
  entries : List (K × V)

module _ {K V : Type 0} ⦃k : Key K⦄ where
  lookup : K → List (K × V) → Option V
  lookup q [] = none
  lookup q ((j, v) ∷ l) = ite (k.dec j q) (some v) (lookup q l)

  without : K → List (K × V) → List (K × V)
  without q [] = []
  without q ((j, v) ∷ l) = let rest = without q l in ite (k.dec j q) rest ((j, v) ∷ rest)

  lookup-without :
      (q j : K) (l : List (K × V)) → lookup j (without q l) ≡ ite (k.dec q j) none (lookup j l)
  unfolding lookup without
  lookup-without q j [] = ground arith
  lookup-without q j ((i, v) ∷ l) = ground (arith, lookup-without q j l)

  unfoldable pub empty : Dict K V
  empty = record { entries = [] }

  unfoldable pub get : K → Dict K V → Option V
  unfolding lookup
  get q d = lookup q d.entries

  unfoldable pub insert : K → V → Dict K V → Dict K V
  unfolding without
  insert q v d = record { entries = (q, v) ∷ without q d.entries }

  unfoldable pub remove : K → Dict K V → Dict K V
  unfolding without
  remove q d = record { entries = without q d.entries }

  unfoldable pub keys : Dict K V → List K
  keys d = map (λ e. e.0) d.entries

  -- `map.len()`
  unfoldable pub len : Dict K V → ℕ
  len d = length d.entries

  length-without : (q : K) (l : List (K × V)) → length (without q l) ≤ length l
  unfolding without
  length-without q [] = omega arith
  length-without q ((j, v) ∷ l) = ground (arith, length-without q l)

  pub len-remove : (q : K) (d : Dict K V) → len (remove q d) ≤ len d
  unfolding remove len
  len-remove q d = length-without q d.entries

  without-lookup :
      (q : K) (v : V) (l : List (K × V)) → lookup q l ≡ some v → length (without q l) < length l
  unfolding without lookup
  without-lookup q v [] h = cc
  without-lookup q v ((j, w) ∷ l) h = ground (arith, without-lookup q v l, length-without q l)

  pub len-remove-get : (q : K) (v : V) (d : Dict K V) → get q d ≡ some v → len (remove q d) < len d
  unfolding remove len get
  len-remove-get q v d h = without-lookup q v d.entries h

  without-insert-le :
      (q : K) (v : V) (l : List (K × V))
      → lookup q l ≡ some v
      → suc (length (without q l)) ≤ length l
  without-insert-le q v l h = omega (arith, without-lookup q v l h)

  -- A value that is put in place of another.
  pub len-insert-get :
      (q : K) (v w : V) (d : Dict K V) → get q d ≡ some v → len (insert q w d) ≤ len d
  unfolding insert len get
  len-insert-get q v w d h = without-insert-le q v d.entries h

  -- `map.values().filter(test).count()`
  count_entries : (V → Bool) → List (K × V) → ℕ
  count_entries p [] = 0
  count_entries p ((j, v) ∷ l) = let rest = count_entries p l in if p v then suc rest else rest

  unfoldable pub count : (V → Bool) → Dict K V → ℕ
  unfolding count_entries
  count p d = count_entries p d.entries

  count-without :
      (p : V → Bool) (q : K) (l : List (K × V)) → count_entries p (without q l) ≤ count_entries p l
  unfolding count_entries without
  count-without p q [] = omega arith
  count-without p q ((j, v) ∷ l) = ground (arith, count-without p q l)

  -- One new value adds at most one, and one that fails the test none.
  pub count-insert-le :
      (p : V → Bool) (q : K) (v : V) (d : Dict K V) → count p (insert q v d) ≤ suc (count p d)
  unfolding count insert count_entries
  count-insert-le p q v d = ground (arith, count-without p q d.entries)

  pub count-insert-false :
      (p : V → Bool) (q : K) (v : V) (d : Dict K V)
      → p v ≡ false
      → count p (insert q v d) ≤ count p d
  unfolding count insert count_entries
  count-insert-false p q v d h = ground (arith, count-without p q d.entries)

  count-without-lookup :
      (p : V → Bool) (q : K) (v : V) (l : List (K × V))
      → lookup q l ≡ some v
      → p v ≡ true
      → suc (count_entries p (without q l)) ≤ count_entries p l
  unfolding count_entries without lookup
  count-without-lookup p q v [] e h = cc
  count-without-lookup p q v ((j, w) ∷ l) e h =
      ground (arith, count-without-lookup p q v l, count-without p q l)

  -- A value in place of one that passed the test adds none.
  pub count-insert-get :
      (p : V → Bool) (q : K) (v w : V) (d : Dict K V)
      → get q d ≡ some v
      → p v ≡ true
      → count p (insert q w d) ≤ count p d
  unfolding count insert count_entries get
  count-insert-get p q v w d e h = ground (arith, count-without-lookup p q v d.entries e h)

  pub get-empty : (q : K) → get q empty ≡ none
  unfolding get empty
  get-empty q = refl

  pub get-insert :
      (q j : K) (v : V) (d : Dict K V) → get j (insert q v d) ≡ ite (k.dec q j) (some v) (get j d)
  unfolding get insert
  get-insert q j v d = ground (arith, lookup-without q j d.entries)

  pub get-remove : (q j : K) (d : Dict K V) → get j (remove q d) ≡ ite (k.dec q j) none (get j d)
  unfolding get remove
  get-remove q j d = lookup-without q j d.entries

  values_at : List K → Dict K V → List V
  values_at [] d = []
  values_at (q ∷ qs) d =
      let rest = values_at qs d in elim (get q d) [ none ↦ rest | some v ↦ v ∷ rest ]

  -- `map.values()`
  unfoldable pub values : Dict K V → List V
  unfolding values_at keys
  values d = values_at (keys d) d

  module _ (P : V → Type 0) (d : Dict K V) (holds : (q : K) (v : V) → get q d ≡ some v → P v) where
    values_at-Every : (qs : List K) → Every P (values_at qs d)
    unfolding values_at
    values_at-Every [] = tt
    values_at-Every (q ∷ qs) = elim (Option-cases (get q d)) [
      | inl missing ↦ rw (missing, Every) (values_at-Every qs)
      | inr (v, at) ↦ rw (at, Every) (holds q v at, values_at-Every qs)
    ]

    -- What holds of every value at its key holds of the values.
    pub values-Every : Every P (values d)
    unfolding values
    values-Every = values_at-Every (keys d)

  -- `map.values().any(test)`
  test_at : (V → Bool) → Dict K V → K → Bool
  test_at p d q = elim (get q d) [ none ↦ false | some v ↦ p v ]

  unfoldable pub any_value : (V → Bool) → Dict K V → Bool
  unfolding test_at
  any_value p d = any (test_at p d) (keys d)

  test_at-elim :
      (p : V → Bool) (d : Dict K V) (q : K)
      → test_at p d q ≡ true
      → (v : V) × (get q d ≡ some v) × (p v ≡ true)
  unfolding test_at
  test_at-elim p d q h = elim (Option-cases (get q d)) [
    | inl n ↦ absurd (ground arith)
    | inr (v, s) ↦ (v, s, ground arith)
  ]

  pub any_value-elim :
      (p : V → Bool) (d : Dict K V)
      → any_value p d ≡ true
      → (q : K) × (v : V) × (get q d ≡ some v) × (p v ≡ true)
  unfolding any_value
  any_value-elim p d h =
      let (q, e) = any-elim (test_at p d) (keys d) h in
      let (v, s, t) = test_at-elim p d q e in (q, v, s, t)

  lookup-any :
      (f : K → Bool) (q : K) (v : V) (l : List (K × V))
      → lookup q l ≡ some v
      → f q ≡ true
      → any f (map (λ e. e.0) l) ≡ true
  unfolding lookup
  lookup-any f q v [] e h = cc
  lookup-any f q v ((j, w) ∷ l) e h = ground (arith, lookup-any f q v l)

  pub any_value-intro :
      (p : V → Bool) (d : Dict K V) (q : K) (v : V)
      → get q d ≡ some v
      → p v ≡ true
      → any_value p d ≡ true
  unfolding any_value get keys test_at
  any_value-intro p d q v e h = lookup-any (test_at p d) q v d.entries e (ground arith)

  -- A value that passes the test stays, perhaps changed, in the other map.
  pub any_value-map :
      (p r : V → Bool) (d e : Dict K V)
      → any_value p d ≡ true
      → ((q : K) (v : V)
          → get q d ≡ some v
          → p v ≡ true
          → (w : V) × (get q e ≡ some w) × (r w ≡ true))
      → any_value r e ≡ true
  any_value-map p r d e h moved =
      let (q, v, at, holds) = any_value-elim p d h in
      let (w, found, passes) = moved q v at holds in any_value-intro r e q w found passes

  -- `for value in map.values_mut()`
  map_entries : (V → V) → List (K × V) → List (K × V)
  map_entries f [] = []
  map_entries f ((j, v) ∷ l) = (j, f v) ∷ map_entries f l

  lookup-map_entries :
      (f : V → V) (q : K) (l : List (K × V))
      → lookup q (map_entries f l) ≡ Option.map f (lookup q l)
  unfolding lookup map_entries
  lookup-map_entries f q [] = refl
  lookup-map_entries f q ((j, v) ∷ l) = ground (arith, lookup-map_entries f q l)

  unfoldable pub map_values : (V → V) → Dict K V → Dict K V
  unfolding map_entries
  map_values f d = record { entries = map_entries f d.entries }

  pub get-map_values :
      (f : V → V) (q : K) (d : Dict K V) → get q (map_values f d) ≡ Option.map f (get q d)
  unfolding get map_values
  get-map_values f q d = lookup-map_entries f q d.entries

pub ruleset dict_laws = (get-empty, get-insert, get-remove, get-map_values)
