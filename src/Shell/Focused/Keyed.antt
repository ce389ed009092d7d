-- ===== src/Shell/Focused/Keyed.antt =====
-- src/shell.rs: the keys outside an overlay and the actions of the action bar keep the focus.
use turtletap.Prelude.{ℕ, ◌≡◌, refl, Bool, true, false, Option, none, some, List, [], ◌∷◌}
use turtletap.Binding.{KeyEvent}
use turtletap.Binding.Actions.{leader_jump_modifiers}
use turtletap.Shell.{
  ShellSignal, continue, exit, detached, scroll_page_up, scroll_page_down, Surfaces, Platform,
  Overlay, PaletteAction, Notice, run_surface_command, select_surface, next_surface,
  previous_surface, scroll_up, scroll_down, close_surface, Entry, Shell,
}
use turtletap.Shell.Focus.{ℤ, pos, negsuc, select_index, select_relative}
use turtletap.Shell.Actions.{signalling}
use turtletap.Shell.Palette.{active_surface}
use turtletap.Shell.Keys.{
  jump, numbered, without_notice, clear_notice, open_palette, open_help, unknown_leader_key,
  execute_palette_action, first_of, leader_arms, leader_action, handle_leader_key,
}
use turtletap.Shell.Focused.{FocusLaws, Focused, IsValid}
use turtletap.Shell.Focused.Lists.{OneFocus-lt}
use turtletap.Shell.Focused.Selected.{
  Kept, KeptRun, select_index-Kept, select_relative-Kept, select_numbered-Kept,
}
use turtletap.Shell.Focused.Removed.{close_active-Kept}
use turtletap.Shell.Focused.Called.{
  at_index-some, call_active-Kept, dispatch_to_active-Kept, signalling-Kept,
}

module _ {S : Type 0} (V : Surfaces S) (P : Platform) (focused : S → Bool)
    (laws : FocusLaws V focused) where
  -- A call that comes back, with a valid shell.
  abbrev pub Ends : {A : Type 0} → Option (A × Shell S) → Type 0
  Ends {A} r = (a : A) × (s' : Shell S) × (r ≡ some (a, s')) × IsValid focused s'

  -- Each branch of a chain, and the last one.
  abbrev pub AllEnd : List (Bool × Option (ShellSignal × Shell S)) → Type 0
  AllEnd [] = Unit {0}
  AllEnd ((test, branch) ∷ arms) = Ends branch × AllEnd arms

  pub first_of-Ends :
      (arms : List (Bool × Option (ShellSignal × Shell S)))
      (default : Option (ShellSignal × Shell S))
      → AllEnd arms
      → Ends default
      → Ends (first_of arms default)
  unfolding first_of
  first_of-Ends [] default ends end = end
  first_of-Ends ((true, branch) ∷ arms) default (ends, rest) end = ends
  first_of-Ends ((false, branch) ∷ arms) default (ends, rest) end =
      first_of-Ends arms default rest end

  pub stays : (signal : ShellSignal) (s : Shell S) → IsValid focused s → Ends (some (signal, s))
  stays signal s valid = (signal, s, refl, valid)

  pub steps :
      (delta : ℤ) → KeptRun V focused laws (λ s. signalling continue (select_relative V delta s))
  steps delta =
      signalling-Kept V focused laws continue (select_relative V delta)
        (select_relative-Kept V focused laws delta)

  numbered-Kept : (digit : Option ℕ) → Kept V focused laws (numbered V P digit)
  unfolding numbered
  numbered-Kept none s valid = (s, refl, valid)
  numbered-Kept (some digit) s valid = select_numbered-Kept V focused laws digit s valid

  pub jumps :
      (digit : Option ℕ) → KeptRun V focused laws (λ s. signalling continue (numbered V P digit s))
  jumps digit = signalling-Kept V focused laws continue (numbered V P digit) (numbered-Kept digit)

  pub execute_palette_action-Kept :
      (action : PaletteAction) → KeptRun V focused laws (execute_palette_action V P action)
  unfolding execute_palette_action
  execute_palette_action-Kept (run_surface_command id) s valid =
      call_active-Kept V focused laws (V.execute_command id) (laws.execute_command-focused id)
        (record s { overlay = none }) valid
  execute_palette_action-Kept (select_surface index) s valid =
      signalling-Kept V focused laws continue (select_index V index)
        (select_index-Kept V focused laws index) (record s { overlay = none }) valid
  execute_palette_action-Kept next_surface s valid =
      steps (pos 1) (record s { overlay = none }) valid
  execute_palette_action-Kept previous_surface s valid =
      steps (negsuc 0) (record s { overlay = none }) valid
  execute_palette_action-Kept scroll_up s valid =
      dispatch_to_active-Kept V focused laws scroll_page_up (record s { overlay = none }) valid
  execute_palette_action-Kept scroll_down s valid =
      dispatch_to_active-Kept V focused laws scroll_page_down (record s { overlay = none }) valid
  execute_palette_action-Kept close_surface s valid =
      close_active-Kept V focused laws (record s { overlay = none }) valid
  execute_palette_action-Kept PaletteAction.detach s valid =
      stays (exit detached) (record s { overlay = none }) valid
  execute_palette_action-Kept PaletteAction.help s valid =
      stays continue (record s { overlay = some Overlay.help }) valid

  without_notice-IsValid :
      (n : Option Notice) (s : Shell S) → IsValid focused s → IsValid focused (without_notice n s)
  unfolding without_notice
  without_notice-IsValid none s valid = valid
  without_notice-IsValid (some n) s valid = valid

  pub clear_notice-IsValid : (s : Shell S) → IsValid focused s → IsValid focused (clear_notice s)
  unfolding clear_notice
  clear_notice-IsValid s valid = without_notice-IsValid s.notice s valid

  leader_arms-AllEnd :
      (event : KeyEvent) (s : Shell S) → IsValid focused s → AllEnd (leader_arms V P event s)
  unfolding leader_arms open_palette open_help
  leader_arms-AllEnd event s valid = (
    stays (exit detached) s valid,
    (
      stays continue (open_palette s) valid,
      (
        steps (pos 1) s valid,
        (
          steps (negsuc 0) s valid,
          (
            dispatch_to_active-Kept V focused laws scroll_page_up s valid,
            (
              dispatch_to_active-Kept V focused laws scroll_page_down s valid,
              (
                jumps (jump leader_jump_modifiers event s) s valid,
                (
                  close_active-Kept V focused laws s valid,
                  (stays continue (open_help s) valid, (stays continue s valid, tt)),
                ),
              ),
            ),
          ),
        ),
      ),
    ),
  )

  leader_action-Kept : (event : KeyEvent) → KeptRun V focused laws (leader_action V P event)
  unfolding leader_action unknown_leader_key
  leader_action-Kept event s valid =
      first_of-Ends (leader_arms V P event s) (some (continue, unknown_leader_key V P s))
        (leader_arms-AllEnd event s valid) (stays continue (unknown_leader_key V P s) valid)

  pub handle_leader_key-Kept :
      (event : KeyEvent) → KeptRun V focused laws (handle_leader_key V P event)
  unfolding handle_leader_key
  handle_leader_key-Kept event s valid =
      leader_action-Kept event (clear_notice s) (clear_notice-IsValid s valid)

  pub active_surface-some :
      (active : Option ℕ) (es : List (Entry S))
      → Focused focused es active
      → (o : Option S) × (active_surface V P active es ≡ some o)
  unfolding active_surface
  active_surface-some none es focus = (none, refl)
  active_surface-some (some index) [] focus = absurd focus
  active_surface-some (some index) (e ∷ es) focus =
      let few = OneFocus-lt V focused laws (e ∷ es) index focus in
      let (entry, at) = at_index-some index (e ∷ es) few in (some entry.surface, rw at refl)
