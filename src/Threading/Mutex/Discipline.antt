-- ===== src/Threading/Mutex/Discipline.antt =====
-- Which calls a mutex makes of the platform's handle, for every way in which those calls may end: the
-- handle is created at most once, used only after that, and destroyed just when it was created.
use libcxxext.Threading.Errors.{operation_failed}
use libcxxext.Prelude.{
  Bool, true, false, ◌≡◌, refl, ap, ◌∙◌, sym, List, [], ◌∷◌, if◌then◌else◌, Bool-cases, inl, inr,
}
use libcxxext.Prelude.Outcome.{Outcome, done, violated, undefined, ◌>>=◌}
use libcxxext.Threading.Errors.{PlatformError, Answer, success, failure}
use libcxxext.Threading.Mutex.{
  Handle, Mutex, is_ok, try_init, acquire, try_acquire, release, destruct,
}

-- A call of the handle, as far as it matters.
pub data Event : Type 0 where
  created create_failed used destroyed : Event

-- Whether the handle has been created, and destroyed, by the calls so far, the newest first.
abbrev pub was_created : List Event → Bool
was_created [] = false
was_created (created ∷ es) = true
was_created (_ ∷ es) = was_created es

abbrev pub was_destroyed : List Event → Bool
was_destroyed [] = false
was_destroyed (destroyed ∷ es) = true
was_destroyed (_ ∷ es) = was_destroyed es

abbrev pub IsDisciplined : List Event → Type 0
IsDisciplined [] = Unit
IsDisciplined (created ∷ es) = (was_created es ≡ false) × IsDisciplined es
IsDisciplined (create_failed ∷ es) = (was_created es ≡ false) × IsDisciplined es
IsDisciplined (used ∷ es) = (was_created es ≡ true) × (was_destroyed es ≡ false) × IsDisciplined es
IsDisciplined (destroyed ∷ es) =
    (was_created es ≡ true) × (was_destroyed es ≡ false) × IsDisciplined es

pub data Call : Type 0 where
  acquire_call try_acquire_call release_call : Call

module _ (answer : List Event → PlatformError) where
  -- A platform that records the calls, and answers by what was called before.
  abbrev pub recording : Handle (List Event)
  recording = record {
    create = λ es. (answer es, (if is_ok (answer es) then created else create_failed) ∷ es);
    lock_handle = λ es. (answer es, used ∷ es);
    try_lock_handle = λ es. (answer es, used ∷ es);
    unlock = λ es. (answer es, used ∷ es);
    destroy_handle = λ es. destroyed ∷ es;
  }

  abbrev pub call : Call → Mutex (List Event) → Outcome (Answer × Mutex (List Event))
  call acquire_call m = done (acquire recording m)
  call try_acquire_call m = done (try_acquire recording m)
  call release_call m = release recording m

  pub run : List Call → Mutex (List Event) → Outcome (Mutex (List Event))
  run [] m = done m
  run (c ∷ cs) m = do r ← call c m; run cs r.1

  abbrev pub fresh_mutex : Mutex (List Event)
  fresh_mutex = record { mut = []; completed = false }

  abbrev Inv : Mutex (List Event) → Type 0
  Inv m = IsDisciplined m.mut × (was_created m.mut ≡ m.completed) × (was_destroyed m.mut ≡ false)

  create_once :
      (b : Bool) (es : List Event)
      → IsDisciplined es
      → was_created es ≡ false
      → was_destroyed es ≡ false
      → Inv (record { mut = (if b then created else create_failed) ∷ es; completed = b })
  create_once true es h c d = ((c, h), refl, d)
  create_once false es h c d = ((c, h), c, d)

  use_handle :
      (m : Mutex (List Event)) → Inv m → m.completed ≡ true → Inv (record m { mut = used ∷ m.mut })
  use_handle m h t = ((h.1 ∙ t, h.2, h.0), h.1, h.2)

  try_init-Inv : (m : Mutex (List Event)) → Inv m → Inv (try_init recording m).1
  unfolding try_init
  try_init-Inv m h = elim (Bool-cases m.completed) [
    | inl t ↦ rw t (h.0, h.1 ∙ t, h.2)
    | inr f ↦ rw f (create_once (is_ok (answer m.mut)) m.mut h.0 (h.1 ∙ f) h.2)
  ]

  try_init-completed :
      (m : Mutex (List Event)) → (try_init recording m).0 ≡ (try_init recording m).1.completed
  unfolding try_init
  try_init-completed m = elim (Bool-cases m.completed) [ inl t ↦ rw t refl | inr f ↦ rw f refl ]

  acquire-Inv : (m : Mutex (List Event)) → Inv m → Inv (acquire recording m).1
  unfolding acquire
  acquire-Inv m h =
      let m1 = (try_init recording m).1 in
      let inited = try_init-Inv m h in
      elim (Bool-cases (try_init recording m).0) [
        | inl t ↦ rw t (use_handle m1 inited (sym (try_init-completed m) ∙ t))
        | inr f ↦ rw f inited
      ]

  try_acquire-Inv : (m : Mutex (List Event)) → Inv m → Inv (try_acquire recording m).1
  unfolding try_acquire
  try_acquire-Inv m h =
      let m1 = (try_init recording m).1 in
      let inited = try_init-Inv m h in
      elim (Bool-cases (try_init recording m).0) [
        | inl t ↦ rw t (use_handle m1 inited (sym (try_init-completed m) ∙ t))
        | inr f ↦ rw f inited
      ]

  -- What a sequence of calls and the destructor leave: the end of the program by the contract of
  -- `release`, or a disciplined history in which the handle is destroyed if it was created.
  abbrev pub Ends : Outcome (Mutex (List Event)) → Type 0
  Ends (done m) =
      IsDisciplined (destruct recording m)
      × (was_destroyed (destruct recording m) ≡ was_created (destruct recording m))
  Ends violated = Unit
  Ends undefined = ⊥

  destruct-Ends : (m : Mutex (List Event)) → Inv m → Ends (done m)
  unfolding destruct
  destruct-Ends m h = elim (Bool-cases m.completed) [
    | inl t ↦ rw t ((h.1 ∙ t, h.2, h.0), sym (h.1 ∙ t))
    | inr f ↦ rw f (h.0, h.2 ∙ sym (h.1 ∙ f))
  ]

  released :
      (m : Mutex (List Event))
      → m.completed ≡ true
      → release recording m
        ≡ done (
          (if is_ok (answer m.mut) then success else failure operation_failed),
          record m { mut = used ∷ m.mut },
        )
  unfolding release
  released m t =
      ap
        (λ (c : Bool).
          if c
          then done (
            (if is_ok (answer m.mut) then success else failure operation_failed),
            record m { mut = used ∷ m.mut },
          )
          else violated)
        t

  unreleased : (m : Mutex (List Event)) → m.completed ≡ false → release recording m ≡ violated
  unfolding release
  unreleased m f = rw f refl

  run-Ends_from : (cs : List Call) (m : Mutex (List Event)) → Inv m → Ends (run cs m)
  unfolding run
  run-Ends_from [] m h = destruct-Ends m h
  run-Ends_from (acquire_call ∷ cs) m h = run-Ends_from cs (acquire recording m).1 (acquire-Inv m h)
  run-Ends_from (try_acquire_call ∷ cs) m h =
      run-Ends_from cs (try_acquire recording m).1 (try_acquire-Inv m h)
  run-Ends_from (release_call ∷ cs) m h = elim (Bool-cases m.completed) [
    | inl t ↦
        rw (released m t) (run-Ends_from cs (record m { mut = used ∷ m.mut }) (use_handle m h t))
    | inr f ↦ rw (unreleased m f) tt
  ]

  -- Whatever the platform answers, any sequence of `acquire`, `try_acquire` and `release` on a new
  -- mutex and then its destructor creates the handle at most once, uses it only after that, and
  -- destroys it just when it was created, unless `release` comes before the mutex was initialized,
  -- which violates its contract.
  pub run-Ends : (cs : List Call) → Ends (run cs fresh_mutex)
  run-Ends cs = run-Ends_from cs fresh_mutex (tt, refl, refl)
