-- ===== src/Shell/Focused/Called.antt =====
-- src/shell.rs: the calls of a surface, and what is done with its answer, keep the focus.
use turtletap.Prelude.{
  ℕ, zero, suc, ◌<◌, ◌≡◌, inl, inr, refl, sym, subst, ◌∙◌, ap, Bool, true, Option, none, some, List,
  [], ◌∷◌, map, arith, length, leb, Bool-cases, Option-cases,
}
use turtletap.Prelude.Panics.{at_index, update_at-length}
use turtletap.Shell.{
  ShellSignal, continue, exit, detached, no_surfaces, ShellConfig, SurfaceEvent, SurfaceAction,
  ignored, consumed, close, detach, open_surface, focus_key, reconfigure, Surfaces, Entry, Shell,
}
use turtletap.Shell.Focus.{on_surface, signal_of, select_key}
use turtletap.Shell.Actions.{
  call_at, reconfigure_all, already_open, open_or_select, drop_index, push_surface, signalling, act,
  apply_surface_action, call_active, dispatch_to_active, run_each,
}
use turtletap.Shell.Focused.{FocusLaws, Blurred, OneFocus, Focused, IsValid}
use turtletap.Shell.Focused.Lists.{OneFocus-lt, update_at-keeps}
use turtletap.Shell.Focused.Selected.{
  Kept, KeptRun, Focused-cases, OneFocus-Focused, add_boxed_surface-Kept, select_index-Kept,
  select_key-Kept,
}
use turtletap.Shell.Focused.Removed.{remove_index-Kept}

-- In range there is an entry.
pub at_index-some :
    {A : Type 0} (n : ℕ) (xs : List A) → n < length xs → (x : A) × (at_index n xs ≡ some x)
unfolding at_index
at_index-some n [] few = absurd (omega arith)
at_index-some zero (x ∷ xs) few = (x, refl)
at_index-some (suc n) (x ∷ xs) few = at_index-some n xs (omega arith)

module _ {S : Type 0} (V : Surfaces S) (focused : S → Bool) (laws : FocusLaws V focused) where
  pub call_at-Kept :
      {R : Type 0} (method : S → R × S) (index : ℕ) (s : Shell S)
      → ((x : S) → focused (method x).1 ≡ focused x)
      → index < length s.entries
      → IsValid focused s
      → (a : R) × (s' : Shell S) × (call_at V method index s ≡ some (a, s'))
        × IsValid focused s'
        × (length s'.entries ≡ length s.entries)
  unfolding call_at
  call_at-Kept method index s same few valid =
      elim (Focused-cases V focused laws s.entries s.active valid.0) [
        | inl (off, empty) ↦ absurd (omega (arith, ap length empty))
        | inr (i, on, one) ↦
            let (entry, at) = at_index-some index s.entries few in
            let (ds, run, rest) =
              update_at-keeps V focused laws (λ x. (method x).1) s.entries index i same few one in
            (
              (method entry.surface).0,
              record s { entries = ds },
              rw (at, run) refl,
              (
                subst (Focused focused ds) (sym on) (OneFocus-Focused V focused laws ds i rest),
                valid.1,
              ),
              update_at-length index (on_surface V (λ x. (method x).1)) s.entries ds run,
            )
      ]

  pub drop_index-Kept : (index : ℕ) → Kept V focused laws (drop_index V index)
  unfolding drop_index
  drop_index-Kept index s valid =
      let (a, s', run, after) = remove_index-Kept V focused laws index s valid in
      (s', rw run refl, after)

  pub push_surface-Kept : (surface : S) → Kept V focused laws (push_surface V surface)
  unfolding push_surface
  push_surface-Kept surface s valid =
      let (a, s', run, after) = add_boxed_surface-Kept V focused laws surface s valid in
      (s', rw run refl, after)

  open_or_select-Kept : (surface : S) → Kept V focused laws (open_or_select V surface)
  unfolding open_or_select push_surface
  open_or_select-Kept surface s valid =
      elim (Option-cases (already_open V (V.lookup_key surface) s.entries)) [
        | inl new ↦
            let (s', run, after) = push_surface-Kept surface s valid in
            (s', rw (open_or_select, new) run, after)
        | inr (existing, at) ↦
            let (s', run, after) = select_index-Kept V focused laws existing s valid in
            (s', rw (open_or_select, at) run, after)
      ]

  pub run_each-Kept :
      {X : Type 0} (f : X → Shell S → Option (Shell S))
      → ((x : X) → Kept V focused laws (f x))
      → (xs : List X) → Kept V focused laws (run_each f xs)
  unfolding run_each
  run_each-Kept f kept [] s valid = (s, refl, valid)
  run_each-Kept f kept (x ∷ xs) s valid =
      let (s', run, after) = kept x s valid in
      let (s'', rest, end) = run_each-Kept f kept xs s' after in (s'', rw run rest, end)

  Blurred-map :
      (f : S → S) (es : List (Entry S))
      → ((x : S) → focused (f x) ≡ focused x)
      → Blurred focused es
      → Blurred focused (map (on_surface V f) es)
  unfolding on_surface
  Blurred-map f [] same h = tt
  Blurred-map f (e ∷ es) same (here, h) = (same e.surface ∙ here, Blurred-map f es same h)

  OneFocus-map :
      (f : S → S) (es : List (Entry S)) (i : ℕ)
      → ((x : S) → focused (f x) ≡ focused x)
      → OneFocus focused es i
      → OneFocus focused (map (on_surface V f) es) i
  unfolding on_surface
  OneFocus-map f [] i same h = h
  OneFocus-map f (e ∷ es) zero same (here, h) = (same e.surface ∙ here, Blurred-map f es same h)
  OneFocus-map f (e ∷ es) (suc i) same (here, h) =
      (same e.surface ∙ here, OneFocus-map f es i same h)

  pub Focused-map :
      (f : S → S) (es : List (Entry S)) (a : Option ℕ)
      → ((x : S) → focused (f x) ≡ focused x)
      → Focused focused es a
      → Focused focused (map (on_surface V f) es) a
  Focused-map f [] a same h = h
  Focused-map f (e ∷ es) none same h = h
  Focused-map f (e ∷ es) (some i) same h = OneFocus-map f (e ∷ es) i same h

  pub reconfigure_all-IsValid :
      (config : ShellConfig) (s : Shell S)
      → IsValid focused s
      → IsValid focused (reconfigure_all V config s)
  unfolding reconfigure_all
  reconfigure_all-IsValid config s (focus, frame) = (
    Focused-map (V.reconfigured config) s.entries s.active (laws.reconfigured-focused config) focus,
    frame,
  )

  pub signalling-Kept :
      (signal : ShellSignal) (f : Shell S → Option (Shell S))
      → Kept V focused laws f
      → KeptRun V focused laws (λ s. signalling signal (f s))
  unfolding signalling
  signalling-Kept signal f kept s valid =
      let (s', run, after) = kept s valid in (signal, s', rw run refl, after)

  act-Kept : (index : ℕ) (action : SurfaceAction S) → KeptRun V focused laws (act V index action)
  unfolding act
  act-Kept index ignored s valid = (continue, s, refl, valid)
  act-Kept index consumed s valid = (continue, record s { dirty = true }, refl, valid)
  act-Kept index close s valid =
      let (s', run, after) = drop_index-Kept index s valid in
      (signal_of V s'.entries, s', rw run refl, after)
  act-Kept index detach s valid = (exit detached, s, refl, valid)
  act-Kept index (open_surface surface) s valid =
      signalling-Kept continue (open_or_select V surface) (open_or_select-Kept surface) s valid
  act-Kept index (focus_key key) s valid =
      signalling-Kept continue (select_key V key) (select_key-Kept V focused laws key) s valid
  act-Kept index (reconfigure config) s valid =
      (continue, reconfigure_all V config s, refl, reconfigure_all-IsValid config s valid)

  pub apply_surface_action-Kept :
      (index : ℕ) (action : SurfaceAction S)
      → KeptRun V focused laws (apply_surface_action V index action)
  unfolding apply_surface_action
  apply_surface_action-Kept index action s valid =
      elim (Bool-cases (leb (length s.entries) index)) [
        | inl out ↦ (continue, s, rw (apply_surface_action, out) refl, valid)
        | inr within ↦
            let (a, s', run, after) = act-Kept index action s valid in
            (a, s', rw (apply_surface_action, within) run, after)
      ]

  -- The result of a call of the surface that is active.
  Calls : (S → SurfaceAction S × S) → Option ℕ → Shell S → Type 0
  Calls method active s =
      (a : ShellSignal) × (s' : Shell S) × (call_active V method active s ≡ some (a, s'))
      × IsValid focused s'

  call_active-within :
      (method : S → SurfaceAction S × S) (index : ℕ) (s : Shell S)
      → ((x : S) → focused (method x).1 ≡ focused x)
      → index < length s.entries
      → IsValid focused s
      → Calls method (some index) s
  unfolding call_active Calls
  call_active-within method index s same few valid =
      let (action, s1, run, mid, _) = call_at-Kept method index s same few valid in
      let (a, s2, run2, after) = apply_surface_action-Kept index action s1 mid in
      (a, s2, rw run run2, after)

  call_active-Calls :
      (method : S → SurfaceAction S × S) (active : Option ℕ) (s : Shell S)
      → ((x : S) → focused (method x).1 ≡ focused x)
      → Focused focused s.entries active
      → IsValid focused s
      → Calls method active s
  unfolding call_active Calls
  call_active-Calls method none s same focus valid = (exit no_surfaces, s, refl, valid)
  call_active-Calls method (some index) s same focus valid =
      elim (Focused-cases V focused laws s.entries (some index) focus) [
        | inl (off, empty) ↦ absurd (cc off)
        | inr (i, on, one) ↦
            let here : i ≡ index = cc on in
            let few : index < length s.entries =
              omega (arith, here, OneFocus-lt V focused laws s.entries i one) in
            call_active-within method index s same few valid
      ]

  pub call_active-Kept :
      (method : S → SurfaceAction S × S)
      → ((x : S) → focused (method x).1 ≡ focused x)
      → KeptRun V focused laws (λ s. call_active V method s.active s)
  unfolding Calls
  call_active-Kept method same s valid = call_active-Calls method s.active s same valid.0 valid

  pub dispatch_to_active-Kept :
      (event : SurfaceEvent) → KeptRun V focused laws (dispatch_to_active V event)
  unfolding dispatch_to_active
  dispatch_to_active-Kept event s valid =
      call_active-Kept (V.handle event) (laws.handle-focused event) s valid
