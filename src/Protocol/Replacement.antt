-- ===== src/Protocol/Replacement.antt =====
-- src/resident/protocol.rs: `replacement_is_newer`. The versions of the library semver are a
-- parameter: a type, its parser and its order.
use turtletap.Prelude.{
  Bool, true, false, ◌≡◌, refl, Option, none, some, [], ◌∷◌, ltb, ◌==◌, if◌then◌else◌, arith,
  Option-cases, inl, inr,
}
use turtletap.Protocol.{Text}

-- The order of `str`.
unfoldable pub text_lt : Text → Text → Bool
text_lt [] [] = false
text_lt [] (c ∷ cs) = true
text_lt (b ∷ bs) [] = false
text_lt (b ∷ bs) (c ∷ cs) = let rest = text_lt bs cs in if b == c then rest else ltb b c

module _ {V : Type 0} (parse : Text → Option V) (version_lt : V → V → Bool) where
  unfoldable pub replacement_is_newer : Text → Text → Bool
  replacement_is_newer current requested = elim (parse current) [
    | none ↦ text_lt current requested
    | some old ↦ elim (parse requested) [
      | none ↦ text_lt current requested
      | some new ↦ version_lt old new
    ]
  ]

text_lt_asymm : (xs ys : Text) → text_lt xs ys ≡ true → text_lt ys xs ≡ false
unfolding text_lt
text_lt_asymm [] [] h = refl
text_lt_asymm [] (c ∷ cs) h = refl
text_lt_asymm (b ∷ bs) [] h = cc
text_lt_asymm (b ∷ bs) (c ∷ cs) h = ground (arith, text_lt_asymm bs cs)

-- Where the order of semver versions is asymmetric, no two binaries displace each other: if one is
-- newer than the other, the other is not newer than it, whether their versions parse or not.
pub replacement_is_newer_asymm :
    {V : Type 0} (parse : Text → Option V) (version_lt : V → V → Bool) (current requested : Text)
    → ((v w : V) → version_lt v w ≡ true → version_lt w v ≡ false)
    → replacement_is_newer parse version_lt current requested ≡ true
    → replacement_is_newer parse version_lt requested current ≡ false
unfolding replacement_is_newer
replacement_is_newer_asymm parse version_lt current requested asymm h =
    elim (Option-cases (parse current)) [
      | inl none_old ↦ elim (Option-cases (parse requested)) [
        | inl none_new ↦ ground (arith, text_lt_asymm current requested)
        | inr (new, has_new) ↦ ground (arith, text_lt_asymm current requested)
      ]
      | inr (old, has_old) ↦ elim (Option-cases (parse requested)) [
        | inl none_new ↦ ground (arith, text_lt_asymm current requested)
        | inr (new, has_new) ↦ ground (arith, asymm old new)
      ]
    ]
