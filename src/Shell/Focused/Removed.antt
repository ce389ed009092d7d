-- ===== src/Shell/Focused/Removed.antt =====
-- src/shell.rs: closing a surface ends without a panic, and hands the focus on.
use turtletap.Prelude.{
  ℕ, ◌-◌, ◌<◌, ◌≡◌, ◌≢◌, inl, inr, refl, subst, ap, Bool, true, false, Option, none, some, List, [],
  ◌∷◌, arith, length, leb, ◌==◌, Bool-cases,
}
use turtletap.Shell.{Surfaces, Entry, Shell, ShellSignal, continue, exit, no_surfaces}
use turtletap.Shell.Focus.{
  index_after, is_active, is_empty, min, signal_of, blur_index, refocus, settle, remove_from,
  remove_index, close_from, close_active,
}
use turtletap.Shell.Focused.{FocusLaws, Blurred, OneFocus, Focused, IsValid}
use turtletap.Shell.Focused.Lists.{
  OneFocus-lt, update_at-blur, remove_at-Blurred, remove_at-OneFocus,
}
use turtletap.Shell.Focused.Selected.{KeptRun, Focused-cases, OneFocus-Focused, focus_index-IsValid}

module _ {S : Type 0} (V : Surfaces S) (focused : S → Bool) (laws : FocusLaws V focused) where
  Focused-empty : (es : List (Entry S)) → is_empty es ≡ true → Focused focused es none
  unfolding is_empty
  Focused-empty [] h = tt
  Focused-empty (e ∷ es) h = cc h

  min-lt :
      (index : ℕ) (es : List (Entry S))
      → is_empty es ≡ false
      → min index (length es - 1) < length es
  unfolding is_empty
  min-lt index [] h = cc h
  min-lt index (e ∷ es) h = ground arith

  OneFocus-is_empty : (es : List (Entry S)) (i : ℕ) → OneFocus focused es i → is_empty es ≡ false
  unfolding is_empty
  OneFocus-is_empty [] i h = absurd h
  OneFocus-is_empty (e ∷ es) i h = refl

  -- The active surface is closed: the one at its place, or the last, has the focus.
  settle-closed :
      (s : Shell S) (index : ℕ)
      → Blurred focused s.entries
      → s.pulse_frame < 8
      → (a : ShellSignal) × (s' : Shell S) × (settle V index (some index) s ≡ some (a, s'))
        × IsValid focused s'
  unfolding settle refocus
  settle-closed s index blurred frame = elim (Bool-cases (is_empty s.entries)) [
    | inl empty ↦ (
      exit no_surfaces,
      record s { active = none },
      rw (settle, empty) refl,
      (Focused-empty s.entries empty, frame),
    )
    | inr some_left ↦
        let next = min index (length s.entries - 1) in
        let (s', run, after) =
          focus_index-IsValid V focused laws s next blurred (min-lt index s.entries some_left)
            frame in
        let same : (index == index) ≡ true = ground arith in
        (continue, s', rw (settle, some_left, refocus, same, run) refl, after)
  ]

  -- Another one is closed.
  settle-other :
      (s : Shell S) (index active : ℕ)
      → (active == index) ≡ false
      → OneFocus focused s.entries (index_after index active)
      → s.pulse_frame < 8
      → (a : ShellSignal) × (s' : Shell S) × (settle V index (some active) s ≡ some (a, s'))
        × IsValid focused s'
  unfolding settle refocus
  settle-other s index active other one frame =
      let i = index_after index active in
      (
        continue,
        record s { active = some i },
        rw (settle, OneFocus-is_empty s.entries i one, refocus, other) refl,
        (OneFocus-Focused V focused laws s.entries i one, frame),
      )

  -- The result of a removal, on a shell whose focus is at the index that is given.
  Removes : Option ℕ → ℕ → Shell S → Type 0
  Removes active index s =
      (a : ShellSignal) × (s' : Shell S) × (remove_from V active index s ≡ some (a, s'))
      × IsValid focused s'

  remove_from-active :
      (index : ℕ) (s : Shell S)
      → OneFocus focused s.entries index
      → s.pulse_frame < 8
      → Removes (some index) index s
  unfolding remove_from blur_index is_active Removes
  remove_from-active index s one frame =
      let same : (index == index) ≡ true = ground arith in
      let (ds, run, blurred, long) = update_at-blur V focused laws s.entries index one in
      let few : index < length ds =
        omega (arith, long, OneFocus-lt V focused laws s.entries index one) in
      let (es, gone, rest, _) = remove_at-Blurred V focused laws ds index blurred few in
      let (a, s', end, after) =
        settle-closed (record s { entries = es; dirty = true }) index rest frame in
      (a, s', rw (remove_from, blur_index, same, run, gone) end, after)

  remove_from-other :
      (index active : ℕ) (s : Shell S)
      → (active == index) ≡ false
      → index < length s.entries
      → OneFocus focused s.entries active
      → s.pulse_frame < 8
      → Removes (some active) index s
  unfolding remove_from blur_index is_active Removes
  remove_from-other index active s other few one frame =
      let apart : index ≢ active = λ e. ground arith in
      let (es, gone, rest) =
        remove_at-OneFocus V focused laws s.entries index active one few apart in
      let (a, s', end, after) =
        settle-other (record s { entries = es; dirty = true }) index active other rest frame in
      (a, s', rw (remove_from, blur_index, other, gone) end, after)

  remove_from-Removes :
      (active : Option ℕ) (index : ℕ) (s : Shell S)
      → Focused focused s.entries active
      → s.pulse_frame < 8
      → index < length s.entries
      → Removes active index s
  remove_from-Removes active index s valid frame few =
      elim (Focused-cases V focused laws s.entries active valid) [
        | inl (off, empty) ↦ absurd (ground (arith, ap length empty))
        | inr (i, on, one) ↦ elim (Bool-cases (i == index)) [
          | inl here ↦
              let same : i ≡ index = ground arith in
              rw (on, same)
                (remove_from-active index s (subst (OneFocus focused s.entries) same one) frame)
          | inr away ↦ rw on (remove_from-other index i s away few one frame)
        ]
      ]

  pub remove_index-Kept : (index : ℕ) → KeptRun V focused laws (remove_index V index)
  unfolding remove_index Removes
  remove_index-Kept index s valid = elim (Bool-cases (leb (length s.entries) index)) [
    | inl out ↦ (signal_of V s.entries, s, rw (remove_index, out) refl, valid)
    | inr within ↦
        let (a, s', run, after) =
          remove_from-Removes s.active index s valid.0 valid.1 (ground arith) in
        (a, s', rw (remove_index, within) run, after)
  ]

  close_from-Kept : (active : Option ℕ) → KeptRun V focused laws (close_from V active)
  unfolding close_from
  close_from-Kept none s valid = (exit no_surfaces, s, refl, valid)
  close_from-Kept (some index) s valid = remove_index-Kept index s valid

  pub close_active-Kept : KeptRun V focused laws (close_active V)
  unfolding close_active
  close_active-Kept s valid = close_from-Kept s.active s valid
