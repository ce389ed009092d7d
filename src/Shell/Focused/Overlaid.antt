-- ===== src/Shell/Focused/Overlaid.antt =====
-- src/shell.rs: the keys of the action bar and of the help keep the focus.
use turtletap.Prelude.{
  ℕ, ◌≡◌, refl, Bool, true, false, Option, none, some, List, [], length, if◌then◌else◌,
}
use turtletap.Prelude.Panics.{at_index}
use turtletap.Protocol.{Text}
use turtletap.Binding.{KeyEvent}
use turtletap.Binding.Actions
use turtletap.Shell.{
  continue, Surfaces, Platform, Overlay, palette, PaletteAction, next_surface, previous_surface,
  scroll_up, scroll_down, close_surface, Shell,
}
use turtletap.Shell.Focus.{pos, negsuc, wrap_index}
use turtletap.Shell.Palette.{PaletteItem, palette_items, items_for}
use turtletap.Shell.Keys.{jump, plain_esc}
use turtletap.Shell.Overlays.{
  show_palette, execute_some, jump_action, type_query, typed, drop_end, action_of, palette_arms,
  palette_key, overlay_key, same_overlay, handle_overlay_key,
}
use turtletap.Shell.Focused.{FocusLaws, IsValid}
use turtletap.Shell.Focused.Selected.{KeptRun}
use turtletap.Shell.Focused.Keyed.{
  AllEnd, first_of-Ends, stays, execute_palette_action-Kept, active_surface-some,
}

module _ {S : Type 0} (V : Surfaces S) (P : Platform) (focused : S → Bool)
    (laws : FocusLaws V focused) where
  IsValid-if :
      (b : Bool) (x y : Shell S)
      → IsValid focused x
      → IsValid focused y
      → IsValid focused (if b then x else y)
  IsValid-if true x y vx vy = vx
  IsValid-if false x y vx vy = vy

  execute_some-Kept :
      (action : Option PaletteAction) → KeptRun V focused laws (execute_some V P action)
  unfolding execute_some
  execute_some-Kept none s valid = (continue, s, refl, valid)
  execute_some-Kept (some action) s valid =
      execute_palette_action-Kept V P focused laws action s valid

  type_query-IsValid :
      (c : Option ℕ) (query : Text) (s : Shell S)
      → IsValid focused s
      → IsValid focused (type_query V P c query s)
  unfolding type_query show_palette
  type_query-IsValid none query s valid = valid
  type_query-IsValid (some c) query s valid = valid

  palette_arms-AllEnd :
      (event : KeyEvent) (query : Text) (selected : ℕ) (items : List PaletteItem) (s : Shell S)
      → IsValid focused s
      → AllEnd V P focused laws (palette_arms V P event query selected items s)
  unfolding palette_arms show_palette
  palette_arms-AllEnd event query selected items s valid =
      let shown =
        λ (q : Text) (n : ℕ). stays V P focused laws continue (show_palette V P q n s) valid in
      (
        stays V P focused laws continue (record s { overlay = none }) valid,
        (
          execute_some-Kept (some next_surface) s valid,
          (
            execute_some-Kept (some previous_surface) s valid,
            (
              execute_some-Kept (some scroll_up) s valid,
              (
                execute_some-Kept (some scroll_down) s valid,
                (
                  execute_some-Kept (jump_action V P (jump Actions.action_jump_modifiers event s) s)
                      s valid,
                  (
                    execute_some-Kept (some PaletteAction.detach) s valid,
                    (
                      execute_some-Kept (some close_surface) s valid,
                      (
                        execute_some-Kept (some PaletteAction.help) s valid,
                        (
                          shown query (wrap_index selected (pos 1) (length items)),
                          (
                            shown query (wrap_index selected (negsuc 0) (length items)),
                            (
                              execute_some-Kept (action_of (at_index selected items)) s valid,
                              (shown (drop_end query) 0, (shown [] 0, tt)),
                            ),
                          ),
                        ),
                      ),
                    ),
                  ),
                ),
              ),
            ),
          ),
        ),
      )

  palette_items-some :
      (query : Text) (s : Shell S)
      → IsValid focused s
      → (items : List PaletteItem) × (palette_items V P query s ≡ some items)
  unfolding palette_items
  palette_items-some query s valid =
      let (o, found) = active_surface-some V P focused laws s.active s.entries valid.0 in
      (items_for V P query o s, rw found refl)

  overlay_key-Kept :
      (event : KeyEvent) (overlay : Option Overlay)
      → KeptRun V focused laws (overlay_key V P event overlay)
  unfolding overlay_key palette_key
  overlay_key-Kept event none s valid = (continue, s, refl, valid)
  overlay_key-Kept event (some Overlay.help) s valid = (
    continue,
    (if plain_esc event then record s { overlay = none } else s),
    refl,
    IsValid-if (plain_esc event) (record s { overlay = none }) s valid valid,
  )
  overlay_key-Kept event (some (palette query selected)) s valid =
      let (items, found) = palette_items-some query s valid in
      let last =
        stays V P focused laws continue (type_query V P (typed event) query s)
          (type_query-IsValid (typed event) query s valid) in
      let (a, s', run, after) =
        first_of-Ends V P focused laws (palette_arms V P event query selected items s)
          (some (continue, type_query V P (typed event) query s))
          (palette_arms-AllEnd event query selected items s valid) last in
      (a, s', rw found run, after)

  pub handle_overlay_key-Kept :
      (event : KeyEvent) → KeptRun V focused laws (handle_overlay_key V P event)
  unfolding handle_overlay_key
  handle_overlay_key-Kept event s valid =
      let (a, s1, run, after) = overlay_key-Kept event s.overlay s valid in
      let same = same_overlay s1.overlay s.overlay in
      (
        a,
        (if same then s1 else record s1 { dirty = true }),
        rw run refl,
        IsValid-if same s1 (record s1 { dirty = true }) after after,
      )
