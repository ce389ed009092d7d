-- ===== src/Shell/Focused.antt =====
-- src/shell.rs: the invariant of a shell: the active surface is there, and it alone has the focus; and
-- the frame of the pulse is one of the eight.
pub mod Lists
pub mod Selected
pub mod Removed
pub mod Called
pub mod Everywhere
pub mod Keyed
pub mod Overlaid
pub mod Handled
pub mod Opened
use turtletap.Prelude.{
  ℕ, zero, suc, ◌≡◌, ◌<◌, Bool, true, false, Option, none, some, List, [], ◌∷◌, Every,
}
use turtletap.Shell.{ShellConfig, SurfaceEvent, Surfaces, Entry, Shell}
use turtletap.Protocol.{Text}

-- What the shell relies on in a surface: `focus` and `blur` are told, and no other method takes or
-- gives up the focus.
pub record FocusLaws {S : Type 0} (V : Surfaces S) (focused : S → Bool) : Type 0 where
  pub focus-focused : (s : S) → focused (V.focus s) ≡ true
  pub blur-focused : (s : S) → focused (V.blur s) ≡ false
  pub handle-focused : (e : SurfaceEvent) (s : S) → focused (V.handle e s).1 ≡ focused s
  pub poll_background-focused : (s : S) → focused (V.poll_background s).1 ≡ focused s
  pub execute_command-focused : (id : Text) (s : S) → focused (V.execute_command id s).1 ≡ focused s
  pub reconfigured-focused : (c : ShellConfig) (s : S) → focused (V.reconfigured c s) ≡ focused s

module _ {S : Type 0} (focused : S → Bool) where
  abbrev pub Blurred : List (Entry S) → Type 0
  Blurred [] = Unit {0}
  Blurred (e ∷ es) = (focused e.surface ≡ false) × Blurred es

  -- One surface has the focus, that at the index.
  abbrev pub OneFocus : List (Entry S) → ℕ → Type 0
  OneFocus [] index = ⊥
  OneFocus (e ∷ es) zero = (focused e.surface ≡ true) × Blurred es
  OneFocus (e ∷ es) (suc index) = (focused e.surface ≡ false) × OneFocus es index

  abbrev pub Focused : List (Entry S) → Option ℕ → Type 0
  Focused [] none = Unit {0}
  Focused [] (some index) = ⊥
  Focused (e ∷ es) none = ⊥
  Focused (e ∷ es) (some index) = OneFocus (e ∷ es) index

  abbrev pub IsValid : Shell S → Type 0
  IsValid self = Focused self.entries self.active × (self.pulse_frame < 8)
