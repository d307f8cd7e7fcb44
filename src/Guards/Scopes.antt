-- ===== src/Guards/Scopes.antt =====
-- The cleanups of a scope: each once, the last one first, but those of cleared and of moved-from objects.
use libcxxext.Prelude.{◌≡◌, refl, sym, List, [], ◌∷◌, ◌++◌, append_assoc, append-nil}
use mathlib.Core.List.{reverse, reverse-cons}
use libcxxext.Guards.{
  guarding, clear, move_destructor, run_destructor, Cleanup, deferred, optional, run_cleanup,
  scope_end,
}

module _ {F : Type 0} where
  scope_end-append :
      (xs ys : List (Cleanup F)) → scope_end (xs ++ ys) ≡ scope_end ys ++ scope_end xs
  unfolding scope_end
  scope_end-append [] ys = sym (append-nil (scope_end ys))
  scope_end-append (x ∷ xs) ys =
      rw (scope_end-append xs ys) (append_assoc (scope_end ys) (scope_end xs) (run_cleanup x))

  abbrev pub all_deferred : List F → List (Cleanup F)
  all_deferred [] = []
  all_deferred (f ∷ fs) = deferred f ∷ all_deferred fs

  scope_end-all_deferred : (fs : List F) → scope_end (all_deferred fs) ≡ reverse fs
  unfolding scope_end run_cleanup
  scope_end-all_deferred [] = refl
  scope_end-all_deferred (f ∷ fs) = rw (scope_end-all_deferred fs) (sym (reverse-cons f fs))

  -- One cleanup behind some objects and in front of others.
  scope_end-middle :
      (fs gs : List F) (rest : List (Cleanup F)) (o : Cleanup F) (run : List F)
      → run_cleanup o ≡ run
      → scope_end (all_deferred fs ++ o ∷ (all_deferred gs ++ rest))
        ≡ (scope_end rest ++ reverse gs) ++ (run ++ reverse fs)
  unfolding scope_end
  scope_end-middle fs gs rest o run h =
      rw
        (
          scope_end-append (all_deferred fs) (o ∷ (all_deferred gs ++ rest)),
          scope_end-append (all_deferred gs) rest,
          scope_end-all_deferred fs,
          scope_end-all_deferred gs,
          h,
        )
        (append_assoc (scope_end rest ++ reverse gs) run (reverse fs))

  -- Deferred functions run in the reverse order, and an optional cleanup among them at its place, or
  -- not when it is cleared, or once when it is moved into a later object of the scope.
  scope_end_order :
      (fs gs : List F) (f : F)
      → (scope_end (all_deferred fs ++ optional (guarding f) ∷ (all_deferred gs ++ []))
          ≡ reverse gs ++ f ∷ reverse fs)
        × (scope_end (all_deferred fs ++ optional (clear (guarding f)) ∷ (all_deferred gs ++ []))
            ≡ reverse gs ++ reverse fs)
        × (scope_end (
              all_deferred fs
              ++ optional (move_destructor (guarding f)).1
                ∷ (all_deferred gs ++ optional (move_destructor (guarding f)).0 ∷ []))
            ≡ f ∷ (reverse gs ++ reverse fs))
  unfolding scope_end run_cleanup guarding clear move_destructor run_destructor
  scope_end_order fs gs f = (
    scope_end-middle fs gs [] (optional (guarding f)) (f ∷ []) refl,
    scope_end-middle fs gs [] (optional (clear (guarding f))) [] refl,
    scope_end-middle fs gs (optional (move_destructor (guarding f)).0 ∷ [])
        (optional (move_destructor (guarding f)).1) [] refl,
  )
