-- ===== src/Shell/Actions.antt =====
-- src/shell.rs: what a shell does with the answers of its surfaces, and its calls of them.
use turtletap.Prelude.{
  ℕ, suc, Bool, true, false, Option, none, some, List, [], ◌∷◌, ◌++◌, map, leb, length,
}
use turtletap.Prelude.Panics.{◌>>=◌, at_index, update_at}
use turtletap.Protocol.{Text}
use turtletap.Shell.{
  detached, no_surfaces, ShellSignal, continue, exit, ShellConfig, SurfaceEvent, tick,
  SurfaceAction, ignored, consumed, close, detach, open_surface, focus_key, reconfigure, Surfaces,
  Entry, Shell, Run,
}
use turtletap.Shell.Focus.{
  on_surface, has_key, position, add_boxed_surface, select_index, select_key, remove_index,
  signal_of,
}
use turtletap.Shell.Pulse.{advance_pulse}

-- `for x in xs { … }` with the shell as the state.
unfoldable pub run_each :
    {S X : Type 0} → (X → Shell S → Option (Shell S)) → List X → Shell S → Option (Shell S)
run_each f [] self = some self
run_each f (x ∷ xs) self = f x self >>= run_each f xs

-- A signal, with the shell that a call leaves.
unfoldable pub signalling :
    {S : Type 0} → ShellSignal → Option (Shell S) → Option (ShellSignal × Shell S)
signalling signal none = none
signalling signal (some self) = some (signal, self)

module _ {S : Type 0} (V : Surfaces S) where
  -- `self.entries[index].surface.method()`
  unfoldable pub call_at : {R : Type 0} → (S → R × S) → ℕ → Run S R
  unfolding at_index update_at on_surface
  call_at method index self = do
    entry ← at_index index self.entries
    entries ← update_at index (on_surface V (λ s. (method s).1)) self.entries
    some ((method entry.surface).0, record self { entries = entries })

  unfoldable pub reconfigure_all : ShellConfig → Shell S → Shell S
  unfolding on_surface
  reconfigure_all config self = record self {
    config = config;
    entries = map (on_surface V (V.reconfigured config)) self.entries;
    dirty = true;
  }

  -- The open surface that has the key of a new one.
  unfoldable pub already_open : Option Text → List (Entry S) → Option ℕ
  unfolding position has_key
  already_open none entries = none
  already_open (some key) entries = position (has_key V key) entries

  unfoldable pub open_or_select : S → Shell S → Option (Shell S)
  unfolding already_open select_index add_boxed_surface
  open_or_select surface self = elim (already_open (V.lookup_key surface) self.entries) [
    | some existing ↦ select_index V existing self
    | none ↦ add_boxed_surface V surface self >>= λ (_, self). some self
  ]

  -- `let _ = self.remove_index(index);`
  unfoldable pub drop_index : ℕ → Shell S → Option (Shell S)
  unfolding remove_index
  drop_index index self = remove_index V index self >>= λ (_, self). some self

  unfoldable pub push_surface : S → Shell S → Option (Shell S)
  unfolding add_boxed_surface
  push_surface surface self = add_boxed_surface V surface self >>= λ (_, self). some self

  -- The match of `apply_surface_action`.
  unfoldable pub act : ℕ → SurfaceAction S → Run S ShellSignal
  unfolding drop_index signal_of open_or_select signalling select_key reconfigure_all
  act index ignored self = some (continue, self)
  act index consumed self = some (continue, record self { dirty = true })
  act index close self = do self ← drop_index index self; some (signal_of V self.entries, self)
  act index detach self = some (exit detached, self)
  act index (open_surface surface) self = signalling continue (open_or_select surface self)
  act index (focus_key key) self = signalling continue (select_key V key self)
  act index (reconfigure config) self = some (continue, reconfigure_all config self)

  unfoldable pub apply_surface_action : ℕ → SurfaceAction S → Run S ShellSignal
  unfolding act
  apply_surface_action index action self = elim (leb (length self.entries) index) [
    | true ↦ some (continue, self)
    | false ↦ act index action self
  ]

  -- A method of the active surface, and its answer.
  unfoldable pub call_active : (S → SurfaceAction S × S) → Option ℕ → Run S ShellSignal
  unfolding call_at apply_surface_action
  call_active method none self = some (exit no_surfaces, self)
  call_active method (some index) self = do
    (action, self) ← call_at method index self
    apply_surface_action index action self

  unfoldable pub dispatch_to_active : SurfaceEvent → Run S ShellSignal
  unfolding call_active
  dispatch_to_active event self = call_active (V.handle event) self.active self

  -- Each surface handles the event, from the index on.
  unfoldable pub handle_each :
      SurfaceEvent → ℕ → List (Entry S) → List (ℕ × SurfaceAction S) × List (Entry S)
  unfolding on_surface
  handle_each event index [] = ([], [])
  handle_each event index (e ∷ es) =
      let rest = handle_each event (suc index) es in
      (
        (index, (V.handle event e.surface).0) ∷ rest.0,
        on_surface V (λ s. (V.handle event s).1) e ∷ rest.1,
      )

unfoldable pub reverse : {X : Type 0} → List X → List X
reverse [] = []
reverse (x ∷ xs) = reverse xs ++ x ∷ []

-- The local variables of `dispatch_to_all`.
pub record Collected (S : Type 0) : Type 0 where
  pub close_indices : List ℕ
  pub open_surfaces : List S
  pub focus_keys : List Text
  pub new_config : Option ShellConfig
  pub detach : Bool
  pub redraw : Bool

module _ {S : Type 0} where
  unfoldable pub collect_action : ℕ → SurfaceAction S → Collected S → Collected S
  collect_action index ignored c = c
  collect_action index consumed c = record c { redraw = true }
  collect_action index close c = record c { close_indices = c.close_indices ++ index ∷ [] }
  collect_action index detach c = record c { detach = true }
  collect_action index (open_surface s) c = record c { open_surfaces = c.open_surfaces ++ s ∷ [] }
  collect_action index (focus_key key) c = record c { focus_keys = c.focus_keys ++ key ∷ [] }
  collect_action index (reconfigure config) c = record c { new_config = some config }

  unfoldable pub collect_actions : List (ℕ × SurfaceAction S) → Collected S → Collected S
  unfolding collect_action
  collect_actions [] c = c
  collect_actions ((index, action) ∷ actions) c =
      collect_actions actions (collect_action index action c)

  -- Only a tick moves the pulse.
  unfoldable pub pulse_of : SurfaceEvent → Run S Bool
  unfolding advance_pulse
  pulse_of (tick elapsed) self = advance_pulse elapsed self
  pulse_of _ self = some (false, self)
