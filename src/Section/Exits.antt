-- ===== src/Section/Exits.antt =====
-- When cs_init and cs_destroy end the process.
use nnos.Prelude.{
  ℕ, ◌≡◌, ◌≢◌, inl, inr, refl, Bool, true, false, not, ◌||◌, Option, none, some, arith, Run, done,
  exited, blocked, Run-cases,
}
use nnos.Prelude.Int.{ℤ, pos, negsuc, eqb_ℤ}
use nnos.Kernel.{Os, Call}
use nnos.Section.{
  Method, atomic, locked, xchg, test_xchg, mutex, sem_posix, sem_posix_named, sem_sysv, mq_posix,
  mq_sysv, method_of, Globals, init_method, cs_init, exit_failure, cs_destroy, destroy_method,
  queue_attr, message_size,
}

module _ (os : Os) where
  pub init-done :
      (n : ℤ) (s t : Globals os)
      → cs_init os n s ≡ done tt t
      → (u : Globals os) × (init_method os (method_of n) (record s { cs_method_used = n })
          ≡ done tt u)
        × (t ≡ record u { cs_var_allocated = true })
  unfolding cs_init
  init-done n s t h =
      elim (Run-cases (init_method os (method_of n) (record s { cs_method_used = n }))) [
        | inl (a, u, e) ↦ (u, e, ground arith)
        | inr (inl (c, u, e)) ↦ absurd (ground arith)
        | inr (inr e) ↦ absurd (ground arith)
      ]

  -- A number that stands for no method ends the process with EXIT_FAILURE; nothing but the method's
  -- number has changed.
  pub cs_init-undefined :
      (n : ℤ) (s : Globals os)
      → method_of n ≡ none
      → cs_init os n s ≡ exited exit_failure (record s { cs_method_used = n })
  unfolding cs_init init_method
  cs_init-undefined n s e = rw e

  -- `fails` of the result of a call, where it returns
  abbrev reply_is : (ℤ → Bool) → Option (ℤ × os.World) → Bool
  reply_is fails none = false
  reply_is fails (some (r, w)) = fails r

  -- the calls that follow one that has returned
  abbrev and_next : (ℤ → os.World → Bool) → Option (ℤ × os.World) → Bool
  and_next next none = false
  and_next next (some (r, w)) = next r w

  abbrev nonzero : ℤ → Bool
  nonzero r = not (eqb_ℤ r (pos 0))

  abbrev minus_one : ℤ → Bool
  minus_one r = eqb_ℤ r (negsuc 0)

  abbrev is_none : Option ℕ → Bool
  is_none none = true
  is_none (some h) = false

  -- whether a call that prepares the place of a method fails, from the first to the last
  unfoldable pub preparing_fails : Option Method → os.World → Bool
  preparing_fails none w = true
  preparing_fails (some mutex) w = reply_is nonzero (os.call Call.mutex_init w)
  preparing_fails (some sem_posix) w = reply_is nonzero (os.call (Call.sem_init 0 1) w)
  preparing_fails (some sem_posix_named) w = is_none (os.sem_open true 1 w).0
  preparing_fails (some sem_sysv) w =
      reply_is minus_one (os.call (Call.semget true 1) w)
      || and_next (λ id v. reply_is minus_one (os.call (Call.semctl_setval id 0 1) v))
          (os.call (Call.semget true 1) w)
  preparing_fails (some mq_posix) w =
      reply_is minus_one (os.call (Call.mq_open (queue_attr os)) w)
      || and_next
          (λ id v.
            reply_is minus_one (os.call Call.mq_unlink v)
            || and_next (λ r u. reply_is minus_one (os.call (Call.mq_send id message_size) u))
                (os.call Call.mq_unlink v))
          (os.call (Call.mq_open (queue_attr os)) w)
  preparing_fails (some mq_sysv) w =
      reply_is minus_one (os.call Call.msgget w)
      || and_next (λ id v. reply_is minus_one (os.call (Call.msgsnd id (pos 1)) v))
          (os.call Call.msgget w)
  preparing_fails (some m) w = false

  -- What cs_init comes to: it returns where no call fails, and otherwise it exits with EXIT_FAILURE, and
  -- cs_destroy then does nothing. A call of the system may also never return.
  abbrev pub InitOutcome : (fails : Bool) → Run (Globals os) (Unit {0}) → Type 0
  InitOutcome fails (done _ t) = fails ≡ false
  InitOutcome fails (exited c t) =
      (fails ≡ true) × (c ≡ exit_failure) × (cs_destroy os t ≡ done tt t)
  InitOutcome fails blocked = Unit

  -- the same of the cases of cs_init, which allocate nothing
  abbrev Prepared : Globals os → (fails : Bool) → Run (Globals os) (Unit {0}) → Type 0
  Prepared s fails (done _ t) = fails ≡ false
  Prepared s fails (exited c t) =
      (fails ≡ true) × (c ≡ exit_failure) × (t.cs_var_allocated ≡ s.cs_var_allocated)
  Prepared s fails blocked = Unit

  init_method-Prepared :
      (m : Option Method) (s : Globals os)
      → Prepared s (preparing_fails m s.world) (init_method os m s)
  unfolding init_method preparing_fails
  init_method-Prepared none s = (refl, refl, refl)
  init_method-Prepared (some atomic) s = refl
  init_method-Prepared (some locked) s = refl
  init_method-Prepared (some test_xchg) s = refl
  init_method-Prepared (some xchg) s = refl
  init_method-Prepared (some mutex) s = ground arith
  init_method-Prepared (some sem_posix) s = ground arith
  init_method-Prepared (some sem_posix_named) s = ground arith
  init_method-Prepared (some sem_sysv) s = ground arith
  init_method-Prepared (some mq_posix) s = ground arith
  init_method-Prepared (some mq_sysv) s = ground arith

  -- If nothing was allocated before, cs_init ends the process exactly where one of the calls that it
  -- makes for the method fails (but sem_unlink), or the number stands for no method; then it does so
  -- with EXIT_FAILURE, and the cs_destroy that atexit runs finds nothing allocated and makes no call.
  pub cs_init_failure :
      (n : ℤ) (s : Globals os)
      → s.cs_var_allocated ≡ false
      → InitOutcome (preparing_fails (method_of n) s.world) (cs_init os n s)
  unfolding cs_init cs_destroy
  cs_init_failure n s a =
      let x = record s { cs_method_used = n } in
      let h = init_method-Prepared (method_of n) x in
      elim (Run-cases (init_method os (method_of n) x)) [
        | inl (_, u, e) ↦ ground (arith, e, h)
        | inr (inl (d, u, e)) ↦ ground (arith, e, h)
        | inr (inr e) ↦ ground (arith, e)
      ]

  destroy_method-no_exit :
      (m : Option Method) (s t : Globals os) (c : ℕ) → destroy_method os m s ≢ exited c t
  unfolding destroy_method
  destroy_method-no_exit none s t c h = cc
  destroy_method-no_exit (some atomic) s t c h = cc
  destroy_method-no_exit (some m) s t c h = ground arith

  -- cs_destroy never ends the process, whatever the calls that release the resources return.
  pub cs_destroy-no_exit : (s t : Globals os) (c : ℕ) → cs_destroy os s ≢ exited c t
  unfolding cs_destroy
  cs_destroy-no_exit s t c h = elim (Run-cases (destroy_method os (method_of s.cs_method_used) s)) [
    | inl (_, u, e) ↦ ground arith
    | inr (inl (d, u, e)) ↦ destroy_method-no_exit _ s u d e
    | inr (inr e) ↦ ground arith
  ]

  -- Where cs_destroy returns it has cleared the mark, so that a second call, such as the one that
  -- atexit makes, does nothing.
  pub cs_destroy_once :
      (s t : Globals os)
      → cs_destroy os s ≡ done tt t
      → (t.cs_var_allocated ≡ false) × (cs_destroy os t ≡ done tt t)
  unfolding cs_destroy
  cs_destroy_once s t h = elim (Run-cases (destroy_method os (method_of s.cs_method_used) s)) [
    | inl (_, u, e) ↦ ground arith
    | inr (inl (d, u, e)) ↦ ground arith
    | inr (inr e) ↦ ground arith
  ]
