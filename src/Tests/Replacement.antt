-- ===== src/Tests/Replacement.antt =====
-- src/resident/protocol.rs: the tests of `replacement_is_newer`, with versions that are decimal
-- numbers.
use turtletap.Prelude.{
  ℕ, ◌+◌, ◌-◌, ◌*◌, Bool, true, false, ◌≡◌, refl, Option, none, some, [], ◌∷◌, ltb, leb,
  if◌then◌else◌, ◌&&◌, arith,
}
use turtletap.Protocol.{Text}
use turtletap.Protocol.Replacement.{replacement_is_newer, text_lt, replacement_is_newer_asymm}

decimal : ℕ → Text → Option ℕ
decimal n [] = some n
decimal n (c ∷ cs) =
    let rest = decimal (n * 10 + (c - b'0')) cs in if leb b'0' c && leb c b'9' then rest else none

abbrev newer : Text → Text → Bool
newer = replacement_is_newer (decimal 0) ltb

abbrev nine : Text
nine = b'9' ∷ []

abbrev ten : Text
ten = b'1' ∷ b'0' ∷ []

-- "5x", which is no version
abbrev five_x : Text
five_x = b'5' ∷ b'x' ∷ []

ltb_asymm : (v w : ℕ) → ltb v w ≡ true → ltb w v ≡ false
ltb_asymm v w h = ground arith

replacement_is_newer_asymm_example : newer ten nine ≡ false
unfolding replacement_is_newer decimal
replacement_is_newer_asymm_example =
    replacement_is_newer_asymm (decimal 0) ltb nine ten ltb_asymm refl

-- Texts that parse and texts that do not, together, are in no order.
three_versions_displace_each_other :
    (newer nine ten ≡ true) × (newer ten five_x ≡ true) × (newer five_x nine ≡ true)
unfolding replacement_is_newer decimal text_lt
three_versions_displace_each_other = (refl, refl, refl)
