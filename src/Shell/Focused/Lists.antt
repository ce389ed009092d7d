-- ===== src/Shell/Focused/Lists.antt =====
-- src/shell.rs: the focus in a list of surfaces, under the changes that the shell makes to it.
use turtletap.Prelude.{
  ℕ, zero, suc, ◌<◌, ◌≡◌, ◌≢◌, refl, sym, subst, ◌∙◌, ap, Bool, some, List, [], ◌∷◌, ◌++◌, arith,
  length,
}
use turtletap.Prelude.Panics.{update_at, remove_at}
use turtletap.Shell.{Surfaces, Entry}
use turtletap.Shell.Focus.{on_surface, index_after}
use turtletap.Shell.Focused.{FocusLaws, Blurred, OneFocus}

index_after-zero : (a : ℕ) → index_after 0 (suc a) ≡ a
unfolding index_after
index_after-zero a = ground arith

index_after-first : (i : ℕ) → index_after (suc i) 0 ≡ 0
unfolding index_after
index_after-first i = ground arith

index_after-suc : (i a : ℕ) → i ≢ a → index_after (suc i) (suc a) ≡ suc (index_after i a)
unfolding index_after
index_after-suc i a other = ground arith

module _ {S : Type 0} (V : Surfaces S) (focused : S → Bool) (laws : FocusLaws V focused) where
  pub OneFocus-lt : (es : List (Entry S)) (i : ℕ) → OneFocus focused es i → i < length es
  OneFocus-lt [] i h = absurd h
  OneFocus-lt (e ∷ es) zero h = omega arith
  OneFocus-lt (e ∷ es) (suc i) (_, h) = omega (arith, OneFocus-lt es i h)

  -- The focused surface is blurred.
  pub update_at-blur :
      (es : List (Entry S)) (i : ℕ)
      → OneFocus focused es i
      → (ds : List (Entry S)) × (update_at i (on_surface V V.blur) es ≡ some ds)
        × Blurred focused ds
        × (length ds ≡ length es)
  unfolding update_at on_surface
  update_at-blur [] i h = absurd h
  update_at-blur (e ∷ es) zero (_, rest) =
      (on_surface V V.blur e ∷ es, refl, (laws.blur-focused e.surface, rest), refl)
  update_at-blur (e ∷ es) (suc i) (here, h) =
      let (ds, run, blurred, long) = update_at-blur es i h in
      (e ∷ ds, rw run refl, (here, blurred), ap suc long)

  pub update_at-focus :
      (es : List (Entry S)) (i : ℕ)
      → Blurred focused es
      → i < length es
      → (ds : List (Entry S)) × (update_at i (on_surface V V.focus) es ≡ some ds)
        × OneFocus focused ds i
  unfolding update_at on_surface
  update_at-focus [] i h few = absurd (omega arith)
  update_at-focus (e ∷ es) zero (_, rest) few =
      (on_surface V V.focus e ∷ es, refl, (laws.focus-focused e.surface, rest))
  update_at-focus (e ∷ es) (suc i) (here, h) few =
      let (ds, run, one) = update_at-focus es i h (omega arith) in
      (e ∷ ds, rw run refl, (here, one))

  -- A surface of any kind is pushed and focused.
  pub update_at-last :
      (es : List (Entry S)) (e : Entry S)
      → Blurred focused es
      → (ds : List (Entry S)) × (update_at (length es) (on_surface V V.focus) (es ++ e ∷ [])
          ≡ some ds)
        × OneFocus focused ds (length es)
  unfolding update_at on_surface
  update_at-last [] e h = (on_surface V V.focus e ∷ [], refl, (laws.focus-focused e.surface, tt))
  update_at-last (d ∷ es) e (here, h) =
      let (ds, run, one) = update_at-last es e h in (d ∷ ds, rw run refl, (here, one))

  -- A call that leaves the focus alone.
  update_at-Blurred :
      (f : S → S) (es : List (Entry S)) (i : ℕ)
      → ((s : S) → focused (f s) ≡ focused s)
      → i < length es
      → Blurred focused es
      → (ds : List (Entry S)) × (update_at i (on_surface V f) es ≡ some ds) × Blurred focused ds
  unfolding update_at on_surface
  update_at-Blurred f [] i same few h = absurd (omega arith)
  update_at-Blurred f (e ∷ es) zero same few (here, h) =
      (on_surface V f e ∷ es, refl, (same e.surface ∙ here, h))
  update_at-Blurred f (e ∷ es) (suc i) same few (here, h) =
      let (ds, run, rest) = update_at-Blurred f es i same (omega arith) h in
      (e ∷ ds, rw run refl, (here, rest))

  pub update_at-keeps :
      (f : S → S) (es : List (Entry S)) (i a : ℕ)
      → ((s : S) → focused (f s) ≡ focused s)
      → i < length es
      → OneFocus focused es a
      → (ds : List (Entry S)) × (update_at i (on_surface V f) es ≡ some ds) × OneFocus focused ds a
  unfolding update_at on_surface
  update_at-keeps f [] i a same few h = absurd h
  update_at-keeps f (e ∷ es) zero zero same few (here, h) =
      (on_surface V f e ∷ es, refl, (same e.surface ∙ here, h))
  update_at-keeps f (e ∷ es) zero (suc a) same few (here, h) =
      (on_surface V f e ∷ es, refl, (same e.surface ∙ here, h))
  update_at-keeps f (e ∷ es) (suc i) zero same few (here, h) =
      let (ds, run, rest) = update_at-Blurred f es i same (omega arith) h in
      (e ∷ ds, rw run refl, (here, rest))
  update_at-keeps f (e ∷ es) (suc i) (suc a) same few (here, h) =
      let (ds, run, rest) = update_at-keeps f es i a same (omega arith) h in
      (e ∷ ds, rw run refl, (here, rest))

  pub remove_at-Blurred :
      (es : List (Entry S)) (i : ℕ)
      → Blurred focused es
      → i < length es
      → (ds : List (Entry S)) × (remove_at i es ≡ some ds)
        × Blurred focused ds
        × (suc (length ds) ≡ length es)
  unfolding remove_at
  remove_at-Blurred [] i h few = absurd (omega arith)
  remove_at-Blurred (e ∷ es) zero (_, rest) few = (es, refl, rest, refl)
  remove_at-Blurred (e ∷ es) (suc i) (here, h) few =
      let (ds, run, blurred, long) = remove_at-Blurred es i h (omega arith) in
      (e ∷ ds, rw run refl, (here, blurred), ap suc long)

  -- Another surface is removed.
  pub remove_at-OneFocus :
      (es : List (Entry S)) (i a : ℕ)
      → OneFocus focused es a
      → i < length es
      → i ≢ a
      → (ds : List (Entry S)) × (remove_at i es ≡ some ds) × OneFocus focused ds (index_after i a)
  unfolding remove_at index_after
  remove_at-OneFocus [] i a h few other = absurd h
  remove_at-OneFocus (e ∷ es) zero zero h few other = absurd (other refl)
  remove_at-OneFocus (e ∷ es) zero (suc a) (_, h) few other =
      (es, refl, subst (OneFocus focused es) (sym (index_after-zero a)) h)
  remove_at-OneFocus (e ∷ es) (suc i) zero (here, h) few other =
      let (ds, run, blurred, _) = remove_at-Blurred es i h (omega arith) in
      (
        e ∷ ds,
        rw run refl,
        subst (OneFocus focused (e ∷ ds)) (sym (index_after-first i)) (here, blurred),
      )
  remove_at-OneFocus (e ∷ es) (suc i) (suc a) (here, h) few other =
      let (ds, run, one) =
        remove_at-OneFocus es i a h (omega arith) (λ same. other (ap suc same)) in
      (
        e ∷ ds,
        rw run refl,
        subst (OneFocus focused (e ∷ ds)) (sym (index_after-suc i a (λ same. other (ap suc same))))
            (here, one),
      )
