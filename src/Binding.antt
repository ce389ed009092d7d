-- ===== src/Binding.antt =====
-- src/binding.rs: key chords, and why they or a set of them are refused. The codes and flags of
-- crossterm that the program does not name are numbers: `KeyCode.other` and the field `others`.
pub mod Chords
pub mod Labels
pub mod Actions
pub mod Catalog
pub mod Sets
pub mod Defaults
pub mod Validate
pub mod Parse
pub mod Parts
pub mod Stored
pub mod Characters
pub mod RoundTrip
pub mod Modifiers
pub mod Paths
pub mod Safe
pub mod Accept
pub mod Reports
use turtletap.Prelude.{ℕ, ◌≡◌, Bool, true, false, ◌&&◌, ◌||◌, Key, ℕ_discrete, ◌==◌}
use turtletap.Protocol.{Text}

pub data KeyCode : Type 0 where
  backspace enter left right up down home end page_up page_down tab back_tab delete insert esc :
      KeyCode
  f char : ℕ → KeyCode
  other : ℕ → KeyCode

unfoldable pub KeyCode-discrete : Discrete KeyCode
unfolding ℕ_discrete
KeyCode-discrete = hlevel (ℕ_discrete)

instance abbrev pub code_key : Key KeyCode
code_key = record { dec = KeyCode-discrete }

pub record KeyModifiers : Type 0 where
  pub control : Bool
  pub alt : Bool
  pub shift : Bool
  pub super : Bool
  -- the bits of the other flags
  pub others : ℕ

unfoldable pub KeyModifiers-discrete : Discrete KeyModifiers
unfolding ℕ_discrete
KeyModifiers-discrete = hlevel (ℕ_discrete)

instance abbrev pub modifiers_key : Key KeyModifiers
modifiers_key = record { dec = KeyModifiers-discrete }

pub record KeyBinding : Type 0 where
  pub code : KeyCode
  pub modifiers : KeyModifiers

pub data KeyEventKind : Type 0 where
  press repeat release : KeyEventKind

pub record KeyEvent : Type 0 where
  pub code : KeyCode
  pub modifiers : KeyModifiers
  pub kind : KeyEventKind
  -- the bits of its state
  pub state : ℕ

unfoldable pub KeyBinding-discrete : Discrete KeyBinding
unfolding KeyCode-discrete KeyModifiers-discrete
KeyBinding-discrete = hlevel (KeyCode-discrete, KeyModifiers-discrete)

instance abbrev pub binding_key : Key KeyBinding
binding_key = record { dec = KeyBinding-discrete }
