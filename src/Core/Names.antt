-- ===== src/Core/Names.antt =====
-- src/resident/core.rs: `normalize_name` and `valid_name`.
use turtletap.Prelude.{◌≡◌, Bool, false, not, ◌&&◌, [], ◌∷◌, leb, length, all}
use turtletap.Prelude.Strings.{is_control}
use turtletap.Prelude.Trim.{trim, trim_idem}
use turtletap.Protocol.{Text}

-- `name.trim().to_owned()`
unfoldable pub normalize_name : Text → Text
unfolding trim
normalize_name name = trim name

unfoldable pub valid_name : Text → Bool
unfolding is_control
valid_name [] = false
valid_name (c ∷ cs) = leb (length (c ∷ cs)) 64 && all (λ x. not (is_control x)) (c ∷ cs)

-- A normalised name is its own normal form, so a stored name is found again by itself.
pub normalize_name_idem : (name : Text) → normalize_name (normalize_name name) ≡ normalize_name name
unfolding normalize_name
normalize_name_idem name = trim_idem name
