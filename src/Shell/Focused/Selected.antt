-- ===== src/Shell/Focused/Selected.antt =====
-- src/shell.rs: adding, selecting and removing surfaces ends without a panic, and keeps the focus.
use turtletap.Prelude.{
  ℕ, ◌-◌, ◌<◌, ◌≡◌, ◌⊎◌, inl, inr, refl, sym, subst, Bool, true, false, ◌||◌, Option, none, some,
  List, [], ◌∷◌, ◌++◌, arith, length, length-append, ltb, leb, Bool-cases, Option-cases,
}
use turtletap.Protocol.{Text, saturating_add}
use turtletap.Shell.{Surfaces, Entry, Shell, Run, screen_not_open, surface_not_open}
use turtletap.Shell.Focus.{
  ℤ, is_active, position, has_id, has_key, blur_active, focus_index, add_boxed_surface,
  select_index, select, select_from, select_relative, select_numbered, select_key, wrap_index,
}
use turtletap.Shell.Focused.{FocusLaws, Blurred, OneFocus, Focused, IsValid}
use turtletap.Shell.Focused.Lists.{update_at-blur, update_at-focus, update_at-last}

module _ {S : Type 0} (V : Surfaces S) (focused : S → Bool) (laws : FocusLaws V focused) where
  -- A call on a valid shell comes back, with a valid shell.
  abbrev pub Kept : (Shell S → Option (Shell S)) → Type 0
  Kept f = (s : Shell S) → IsValid focused s → (s' : Shell S) × (f s ≡ some s') × IsValid focused s'

  abbrev pub KeptRun : {A : Type 0} → Run S A → Type 0
  KeptRun {A} f =
      (s : Shell S)
      → IsValid focused s
      → (a : A) × (s' : Shell S) × (f s ≡ some (a, s')) × IsValid focused s'

  pub Focused-cases :
      (es : List (Entry S)) (a : Option ℕ)
      → Focused focused es a
      → ((a ≡ none) × (es ≡ [])) ⊎ ((i : ℕ) × (a ≡ some i) × OneFocus focused es i)
  Focused-cases [] none h = inl (refl, refl)
  Focused-cases [] (some i) h = absurd h
  Focused-cases (e ∷ es) none h = absurd h
  Focused-cases (e ∷ es) (some i) h = inr (i, refl, h)

  pub OneFocus-Focused :
      (es : List (Entry S)) (i : ℕ) → OneFocus focused es i → Focused focused es (some i)
  OneFocus-Focused [] i h = absurd h
  OneFocus-Focused (e ∷ es) i h = h

  blur_active-Blurred :
      (s : Shell S)
      → IsValid focused s
      → (ds : List (Entry S)) × (blur_active V s ≡ some (record s { entries = ds }))
        × Blurred focused ds
        × (length ds ≡ length s.entries)
  unfolding blur_active
  blur_active-Blurred s valid = elim (Focused-cases s.entries s.active valid.0) [
    | inl (off, empty) ↦ (s.entries, rw off refl, subst (Blurred focused) (sym empty) tt, refl)
    | inr (i, on, one) ↦
        let (ds, run, blurred, long) = update_at-blur V focused laws s.entries i one in
        (ds, rw (on, run) refl, blurred, long)
  ]

  pub focus_index-IsValid :
      (s : Shell S) (i : ℕ)
      → Blurred focused s.entries
      → i < length s.entries
      → s.pulse_frame < 8
      → (s' : Shell S) × (focus_index V i s ≡ some s') × IsValid focused s'
  unfolding focus_index
  focus_index-IsValid s i blurred few frame =
      let (ds, run, one) = update_at-focus V focused laws s.entries i blurred few in
      (
        record s { entries = ds; active = some i; dirty = true },
        rw run refl,
        (OneFocus-Focused ds i one, frame),
      )

  pub add_boxed_surface-Kept : (surface : S) → KeptRun (add_boxed_surface V surface)
  unfolding add_boxed_surface focus_index
  add_boxed_surface-Kept surface s valid =
      let (ds, run, blurred, _) = blur_active-Blurred s valid in
      let entry : Entry S = record { id = s.next_id; surface = surface } in
      let (es, last, one) = update_at-last V focused laws ds entry blurred in
      let end : length (ds ++ entry ∷ []) - 1 ≡ length ds =
        omega (arith, length-append ds (entry ∷ [])) in
      (
        s.next_id,
        record s {
          next_id = saturating_add s.next_id 1;
          entries = es;
          active = some (length ds);
          dirty = true;
        },
        rw (run, end, last) refl,
        (OneFocus-Focused es (length ds) one, valid.1),
      )

  pub select_index-Kept : (index : ℕ) → Kept (select_index V index)
  unfolding select_index
  select_index-Kept index s valid =
      elim (Bool-cases (leb (length s.entries) index || is_active s.active index)) [
        | inl stay ↦ (s, rw (select_index, stay) refl, valid)
        | inr move ↦
            let (ds, run, blurred, long) = blur_active-Blurred s valid in
            let (s', focus, after) =
              focus_index-IsValid (record s { entries = ds }) index blurred (ground (arith, long))
                valid.1 in
            (s', rw (select_index, move, run) focus, after)
      ]

  pub select-Kept : (id : ℕ) → KeptRun (select V id)
  unfolding select
  select-Kept id s valid = elim (Option-cases (position (has_id id) s.entries)) [
    | inl unknown ↦ (false, s, rw (select, unknown) refl, valid)
    | inr (index, at) ↦
        let (s', run, after) = select_index-Kept index s valid in
        (true, s', rw (select, at, run) refl, after)
  ]

  select_from-Kept : (delta : ℤ) (active : Option ℕ) → Kept (select_from V delta active)
  unfolding select_from
  select_from-Kept delta none s valid = (s, refl, valid)
  select_from-Kept delta (some i) s valid =
      select_index-Kept (wrap_index i delta (length s.entries)) s valid

  pub select_relative-Kept : (delta : ℤ) → Kept (select_relative V delta)
  unfolding select_relative
  select_relative-Kept delta s valid = select_from-Kept delta s.active s valid

  pub select_numbered-Kept : (digit : ℕ) → Kept (select_numbered V digit)
  unfolding select_numbered
  select_numbered-Kept digit s valid = elim (Bool-cases (ltb (digit - b'1') (length s.entries))) [
    | inl open_screen ↦
        let (s', run, after) = select_index-Kept (digit - b'1') s valid in
        (s', rw (select_numbered, open_screen) run, after)
    | inr no_screen ↦ (
      record s { notice = some (screen_not_open digit (length s.entries)); dirty = true },
      rw (select_numbered, no_screen) refl,
      valid,
    )
  ]

  pub select_key-Kept : (key : Text) → Kept (select_key V key)
  unfolding select_key
  select_key-Kept key s valid = elim (Option-cases (position (has_key V key) s.entries)) [
    | inl unknown ↦ (
      record s { notice = some (surface_not_open key); dirty = true },
      rw (select_key, unknown) refl,
      valid,
    )
    | inr (index, at) ↦
        let (s', run, after) = select_index-Kept index s valid in
        (s', rw (select_key, at) run, after)
  ]
