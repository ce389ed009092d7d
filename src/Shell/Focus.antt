-- ===== src/Shell/Focus.antt =====
-- src/shell.rs: which surface has the focus: adding, selecting and removing surfaces.
use turtletap.Prelude.{
  ℕ, ◌+◌, ◌-◌, ◌%◌, ◌^◌, Bool, true, false, ◌||◌, Option, none, some, List, [], ◌∷◌, ◌++◌, ltb, leb,
  ◌==◌, if◌then◌else◌, length,
}
use turtletap.Prelude.Panics.{◌>>=◌, update_at, remove_at}
use turtletap.Prelude.Strings.{text_eq}
use turtletap.Protocol.{Text, saturating_add}
use turtletap.Shell.{
  no_surfaces, ShellSignal, continue, exit, ShellConfig, Surfaces, screen_not_open,
  surface_not_open, Entry, Shell, Run,
}

-- `isize`, by its sign.
pub data ℤ : Type 0 where
  pos negsuc : ℕ → ℤ

-- `usize::wrapping_add_signed` at 64 bits.
unfoldable pub wrapping_add_signed : ℕ → ℤ → ℕ
wrapping_add_signed current (pos n) = (current + n) % 2 ^ 64
wrapping_add_signed current (negsuc n) = (current + (2 ^ 64 - (n + 1))) % 2 ^ 64

unfoldable pub wrap_index : ℕ → ℤ → ℕ → ℕ
unfolding wrapping_add_signed
wrap_index current delta len = if len == 0 then 0 else wrapping_add_signed current delta % len

unfoldable pub is_empty {ℓ} : {A : Type ℓ} → List A → Bool
is_empty [] = true
is_empty (x ∷ xs) = false

-- `Iterator::position`
unfoldable pub position {ℓ} : {A : Type ℓ} → (A → Bool) → List A → Option ℕ
position p [] = none
position p (x ∷ xs) =
    let rest = position p xs in
    if p x then some 0 else elim rest [ none ↦ none | some n ↦ some (1 + n) ]

unfoldable pub has_id : {S : Type 0} → ℕ → Entry S → Bool
has_id id entry = entry.id == id

-- `self.active == Some(index)`
unfoldable pub is_active : Option ℕ → ℕ → Bool
is_active none index = false
is_active (some active) index = active == index

abbrev pub min : ℕ → ℕ → ℕ
min m n = if leb m n then m else n

-- `Some(key)`, if the surface has one, against a key.
unfoldable pub is_key : Option Text → Text → Bool
unfolding text_eq
is_key none key = false
is_key (some candidate) key = text_eq candidate key

-- The active index behind the removal of another one.
unfoldable pub index_after : ℕ → ℕ → ℕ
index_after index active = if ltb index active then active - 1 else active

-- `Shell::new`
unfoldable pub new : {S : Type 0} → ShellConfig → Shell S
new config = record {
  config = config;
  entries = [];
  active = none;
  next_id = 1;
  overlay = none;
  leader_armed = false;
  dirty = true;
  pulse_elapsed = 0;
  pulse_frame = 0;
  pulse_enabled = true;
  clear_requested = false;
  frame_interval = 4000000;
  background_cursor = 0;
  notice = none;
  chrome_hits = [];
}

module _ {S : Type 0} (V : Surfaces S) where
  unfoldable pub on_surface : (S → S) → Entry S → Entry S
  on_surface f entry = record entry { surface = f entry.surface }

  unfoldable pub has_key : Text → Entry S → Bool
  unfolding is_key
  has_key key entry = is_key (V.lookup_key entry.surface) key

  -- `if let Some(active) = self.active { self.entries[active].surface.blur(); }`
  unfoldable pub blur_active : Shell S → Option (Shell S)
  unfolding update_at on_surface
  blur_active self = elim self.active [
    | none ↦ some self
    | some active ↦ do
      entries ← update_at active (on_surface V.blur) self.entries
      some (record self { entries = entries })
  ]

  -- The focus is moved to an index, and the shell is drawn again.
  unfoldable pub focus_index : ℕ → Shell S → Option (Shell S)
  unfolding update_at on_surface
  focus_index index self = do
    entries ← update_at index (on_surface V.focus) self.entries
    some (record self { entries = entries; active = some index; dirty = true })

  unfoldable pub add_boxed_surface : S → Run S ℕ
  unfolding blur_active focus_index saturating_add
  add_boxed_surface surface self = do
    self ← blur_active self
    let id = self.next_id
    let entries = self.entries ++ record { id = id; surface = surface } ∷ []
    let self = record self { next_id = saturating_add id 1; entries = entries }
    self ← focus_index (length self.entries - 1) self
    some (id, self)

  unfoldable pub select_index : ℕ → Shell S → Option (Shell S)
  unfolding blur_active focus_index is_active
  select_index index self = elim (leb (length self.entries) index || is_active self.active index) [
    | true ↦ some self
    | false ↦ blur_active self >>= focus_index index
  ]

  -- Answers whether the identity is known.
  unfoldable pub select : ℕ → Run S Bool
  unfolding position has_id select_index
  select id self = elim (position (has_id id) self.entries) [
    | none ↦ some (false, self)
    | some index ↦ do self ← select_index index self; some (true, self)
  ]

  unfoldable pub select_from : ℤ → Option ℕ → Shell S → Option (Shell S)
  unfolding wrap_index select_index
  select_from delta none self = some self
  select_from delta (some active) self =
      select_index (wrap_index active delta (length self.entries)) self

  unfoldable pub select_relative : ℤ → Shell S → Option (Shell S)
  unfolding select_from
  select_relative delta self = select_from delta self.active self

  -- The digits are `'1'..='9'`.
  unfoldable pub select_numbered : ℕ → Shell S → Option (Shell S)
  unfolding select_index
  select_numbered digit self = elim (ltb (digit - b'1') (length self.entries)) [
    | true ↦ select_index (digit - b'1') self
    | false ↦
        some (record self {
          notice = some (screen_not_open digit (length self.entries));
          dirty = true;
        })
  ]

  unfoldable pub select_key : Text → Shell S → Option (Shell S)
  unfolding position has_key select_index
  select_key key self = elim (position (has_key key) self.entries) [
    | none ↦ some (record self { notice = some (surface_not_open key); dirty = true })
    | some index ↦ select_index index self
  ]

  -- The end of `remove_index`: what is active, with at least one surface left.
  unfoldable pub refocus : ℕ → Option ℕ → Shell S → Option (Shell S)
  unfolding focus_index index_after
  refocus index none self = some (record self { active = none })
  refocus index (some active) self = elim (active == index) [
    | true ↦ focus_index (min index (length self.entries - 1)) self
    | false ↦ some (record self { active = some (index_after index active) })
  ]

  unfoldable pub blur_index : Option ℕ → ℕ → Shell S → Option (Shell S)
  unfolding is_active update_at on_surface
  blur_index active index self = elim (is_active active index) [
    | true ↦ do
      entries ← update_at index (on_surface V.blur) self.entries
      some (record self { entries = entries })
    | false ↦ some self
  ]

  unfoldable pub signal_of : List (Entry S) → ShellSignal
  signal_of [] = exit no_surfaces
  signal_of (e ∷ es) = continue

  -- Behind the removal.
  unfoldable pub settle : ℕ → Option ℕ → Run S ShellSignal
  unfolding refocus signal_of is_empty
  settle index active self = elim (is_empty self.entries) [
    | true ↦ some (exit no_surfaces, record self { active = none })
    | false ↦ do self ← refocus index active self; some (continue, self)
  ]

  -- `remove_index` within the list, with the index that was active before.
  unfoldable pub remove_from : Option ℕ → ℕ → Run S ShellSignal
  unfolding blur_index remove_at settle
  remove_from previous_active index self = do
    blurred ← blur_index previous_active index self
    entries ← remove_at index blurred.entries
    settle index previous_active (record blurred { entries = entries; dirty = true })

  unfoldable pub remove_index : ℕ → Run S ShellSignal
  unfolding remove_from signal_of
  remove_index index self = elim (leb (length self.entries) index) [
    | true ↦ some (signal_of self.entries, self)
    | false ↦ remove_from self.active index self
  ]

  unfoldable pub close_from : Option ℕ → Run S ShellSignal
  unfolding remove_index
  close_from none self = some (exit no_surfaces, self)
  close_from (some index) self = remove_index index self

  unfoldable pub close_active : Run S ShellSignal
  unfolding close_from
  close_active self = close_from self.active self
