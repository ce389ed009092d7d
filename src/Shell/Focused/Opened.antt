-- ===== src/Shell/Focused/Opened.antt =====
-- src/shell.rs: the life of a shell, call by call.
use turtletap.Prelude.{ℕ, ◌≡◌, arith, subst, Bool, Option, some}
use turtletap.Shell.{ShellConfig, Surfaces, Platform, Shell}
use turtletap.Shell.Focus.{new, add_boxed_surface, select}
use turtletap.Shell.Terminal.{RuntimeEvent, RuntimeAction, handle}
use turtletap.Shell.Focused.{FocusLaws, IsValid}
use turtletap.Shell.Focused.Selected.{add_boxed_surface-Kept, select-Kept}
use turtletap.Shell.Focused.Handled.{handle-IsValid}

-- The shells that calls from outside lead to.
pub data Opened {S : Type 0} (V : Surfaces S) (P : Platform) : Shell S → Type 0 where
  fresh : (config : ShellConfig) → Opened V P (new config)
  added :
      (surface : S) (id : ℕ) (s s' : Shell S)
      → Opened V P s
      → add_boxed_surface V surface s ≡ some (id, s')
      → Opened V P s'
  selected :
      (id : ℕ) (found : Bool) (s s' : Shell S)
      → Opened V P s
      → select V id s ≡ some (found, s')
      → Opened V P s'
  handled :
      (event : RuntimeEvent) (answer : RuntimeAction) (s s' : Shell S)
      → Opened V P s
      → handle V P event s ≡ some (answer, s')
      → Opened V P s'

module _ {S : Type 0} (V : Surfaces S) (P : Platform) (focused : S → Bool)
    (laws : FocusLaws V focused) where
  -- One result is the other.
  same_result :
      {A : Type 0} {r : Option (A × Shell S)} (a b : A) (s t : Shell S)
      → r ≡ some (a, s)
      → r ≡ some (b, t)
      → s ≡ t
  same_result a b s t h k = cc (h, k)

  -- In a shell that was made by `new` and changed by adding and selecting surfaces and by handling
  -- events, in any order, the active surface is there and alone has the focus, and there is one as
  -- soon as there is a surface.
  pub Opened-IsValid : (s : Shell S) → Opened V P s → IsValid focused s
  unfolding new
  Opened-IsValid _ (fresh config) = (tt, omega arith)
  Opened-IsValid _ (added surface id t s opened run) =
      let (a, s', end, after) =
        add_boxed_surface-Kept V focused laws surface t (Opened-IsValid t opened) in
      subst (IsValid focused) (same_result a id s' s end run) after
  Opened-IsValid _ (selected id found t s opened run) =
      let (a, s', end, after) = select-Kept V focused laws id t (Opened-IsValid t opened) in
      subst (IsValid focused) (same_result a found s' s end run) after
  Opened-IsValid _ (handled event answer t s opened run) =
      let (a, s', end, after) = handle-IsValid V P focused laws event t (Opened-IsValid t opened) in
      subst (IsValid focused) (same_result a answer s' s end run) after
