-- ===== src/Shell/Palette.antt =====
-- src/shell.rs: the entries of the action bar, and their order for a query.
use turtletap.Prelude.{ℕ, suc, Option, none, some, List, [], ◌∷◌, ◌++◌, map, leb, if◌then◌else◌}
use turtletap.Prelude.Panics.{◌>>=◌, at_index}
use turtletap.Prelude.Strings.{codes, split, is_whitespace}
use turtletap.Prelude.Trim.{trim}
use turtletap.Prelude.Members.{filter}
use turtletap.Protocol.{Text}
use turtletap.Binding.{KeyBinding}
use turtletap.Binding.Actions.{
  KeyId, action_next_screen, action_previous_screen, action_scroll_up, action_scroll_down,
  action_close, action_detach, action_help,
}
use turtletap.Binding.Labels
use turtletap.Shell.{
  SurfaceStatus, ready, working, attention, failed, complete, SurfaceCommand, Surfaces, Platform,
  PaletteAction, run_surface_command, select_surface, next_surface, previous_surface, scroll_up,
  scroll_down, close_surface, detach, help, Entry, Shell,
}
use turtletap.Shell.Focus.{is_active}
use turtletap.Shell.Score.{fuzzy_score, filled, total_score}

pub record PaletteItem : Type 0 where
  pub label : Text
  pub detail : Text
  pub shortcut : Option Text
  pub status : Option SurfaceStatus
  pub action : PaletteAction

unfoldable pub status_label : SurfaceStatus → Text
status_label ready = codes "ready"
status_label working = codes "working"
status_label attention = codes "attention"
status_label failed = codes "failed"
status_label complete = codes "complete"

unfoldable pub palette_match_score : Platform → PaletteItem → Text → Option ℕ
unfolding fuzzy_score total_score filter filled split trim
palette_match_score P item query =
    let words = filter filled (split is_whitespace (P.to_lowercase (trim query))) in
    let label = P.to_lowercase item.label in
    let haystack = label ++ (b' ' ∷ P.to_lowercase item.detail) in
    if filled (P.to_lowercase (trim query))
    then total_score (λ needle. fuzzy_score P.is_alphanumeric needle label haystack) 0 words
    else some 0

unfoldable pub primary_binding_label : Platform → List KeyBinding → Option Text
unfolding Labels.label
primary_binding_label P [] = none
primary_binding_label P (binding ∷ rest) = some (Labels.label P.macos P.to_uppercase binding)

module _ {S : Type 0} (V : Surfaces S) (P : Platform) where
  unfoldable pub command_item : SurfaceCommand → PaletteItem
  command_item command = record {
    label = command.label;
    detail = command.description;
    shortcut = command.shortcut;
    status = none;
    action = run_surface_command command.id;
  }

  unfoldable pub surface_items : Option ℕ → ℕ → List (Entry S) → List PaletteItem
  unfolding status_label is_active
  surface_items active index [] = []
  surface_items active index (e ∷ es) =
      let status = V.status e.surface in
      let current = if is_active active index then codes "current · " else [] in
      record {
        label = codes "Switch to " ++ V.title e.surface;
        detail = codes "Surface · " ++ (current ++ status_label status);
        shortcut = none;
        status = some status;
        action = select_surface index;
      }
      ∷ surface_items active (suc index) es

  unfoldable pub shell_item : Shell S → Text → KeyId → PaletteAction → PaletteItem
  unfolding primary_binding_label
  shell_item self label id action = record {
    label = label;
    detail = codes "Shell";
    shortcut = primary_binding_label P (self.config.bindings.key_lists id);
    status = none;
    action = action;
  }

  unfoldable pub shell_items : Shell S → List PaletteItem
  unfolding shell_item
  shell_items self =
      shell_item self (codes "Next surface") action_next_screen next_surface
      ∷ shell_item self (codes "Previous surface") action_previous_screen previous_surface
      ∷ shell_item self (codes "Scroll active surface up") action_scroll_up scroll_up
      ∷ shell_item self (codes "Scroll active surface down") action_scroll_down scroll_down
      ∷ shell_item self (codes "Close active surface") action_close close_surface
      ∷ shell_item self (codes "Detach") action_detach detach
      ∷ shell_item self (codes "Show keyboard help") action_help help
      ∷ []

  -- Those that match, each with its score.
  unfoldable pub scored : Text → List PaletteItem → List (ℕ × PaletteItem)
  unfolding palette_match_score
  scored query [] = []
  scored query (item ∷ items) = elim (palette_match_score P item query) [
    | none ↦ scored query items
    | some score ↦ (score, item) ∷ scored query items
  ]

  -- A stable sort by the score, which orders equal scores by their position.
  unfoldable pub insert_score : ℕ × PaletteItem → List (ℕ × PaletteItem) → List (ℕ × PaletteItem)
  insert_score x [] = x ∷ []
  insert_score x (y ∷ ys) =
      let rest = insert_score x ys in if leb x.0 y.0 then x ∷ y ∷ ys else y ∷ rest

  unfoldable pub sort_scores : List (ℕ × PaletteItem) → List (ℕ × PaletteItem)
  unfolding insert_score
  sort_scores [] = []
  sort_scores (x ∷ xs) = insert_score x (sort_scores xs)

  unfoldable pub items_of : List (ℕ × PaletteItem) → List PaletteItem
  items_of [] = []
  items_of ((score, item) ∷ rest) = item ∷ items_of rest

  unfoldable pub surface_commands : Option S → List SurfaceCommand
  surface_commands none = []
  surface_commands (some s) = V.commands s

  -- `active_surface`; an index that is out of range panics.
  unfoldable pub active_surface : Option ℕ → List (Entry S) → Option (Option S)
  unfolding at_index
  active_surface none entries = some none
  active_surface (some index) entries =
      at_index index entries >>= λ entry. some (some entry.surface)

  -- The items for a query, with the commands of the active surface.
  unfoldable pub items_for : Text → Option S → Shell S → List PaletteItem
  unfolding surface_commands command_item surface_items shell_items scored items_of sort_scores
      filled trim
  items_for query surface self =
      let commands = map command_item (surface_commands surface) in
      let items = commands ++ (surface_items self.active 0 self.entries ++ shell_items self) in
      let matched = scored query items in
      items_of (if filled (trim query) then sort_scores matched else matched)

  unfoldable pub palette_items : Text → Shell S → Option (List PaletteItem)
  unfolding active_surface items_for
  palette_items query self = do
    surface ← active_surface self.active self.entries
    some (items_for query surface self)
