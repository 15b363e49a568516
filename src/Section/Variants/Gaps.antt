-- ===== src/Section/Variants/Gaps.antt =====
-- The methods that a header accepts and has no code for, and the mark that cs_destroy leaves.
use nnos.Prelude.{◌≡◌, ap, ◌∙◌, Bool, true, false, none, some, arith, done}
use nnos.Prelude.Int.{ℤ}
use nnos.Kernel.{Os}
use nnos.Section.{Method, mq_posix, mq_sysv, method_of, EnterPc, Globals}
use nnos.Section.Variants.BusyWait
use nnos.Section.Variants.Semaphores
use nnos.Section.Variants.SysvSemaphore
use nnos.Section.Variants.PosixQueue
use nnos.Section.Variants.SysvQueue
use nnos.Section.Variants.Family.{
  Header, locked_header, semaphore_header, sysv_header, queue_header, sysv_queue_header, has_code,
  cs_init_of, enter_of, cs_enter_of, cs_destroy_of,
}

module _ (os : Os) where
  cs_init_of-gap :
      (h : Header) (m : Method) (n : ℤ) (s : Globals os)
      → method_of n ≡ some m
      → has_code h m ≡ false
      → cs_init_of os h n s ≡ done tt (record s { cs_method_used = n; cs_var_allocated = true })
  unfolding cs_init_of BusyWait.cs_init Semaphores.cs_init SysvSemaphore.cs_init PosixQueue.cs_init
      SysvQueue.cs_init BusyWait.init_method Semaphores.init_method SysvSemaphore.init_method
      PosixQueue.init_method SysvQueue.init_method
  cs_init_of-gap locked_header m n s d g = rw d (ground arith)
  cs_init_of-gap semaphore_header m n s d g = rw d (ground arith)
  cs_init_of-gap sysv_header m n s d g = rw d (ground arith)
  cs_init_of-gap queue_header m n s d g = rw d (ground arith)
  cs_init_of-gap sysv_queue_header m n s d g = rw d (ground arith)

  enter_of-gap :
      (h : Header) (m : Method) (pc : EnterPc) (s : Globals os)
      → has_code h m ≡ false
      → enter_of os h (some m) pc s ≡ done none s
  unfolding enter_of BusyWait.enter_method Semaphores.enter_method SysvSemaphore.enter_method
      PosixQueue.enter_method SysvQueue.enter_method
  enter_of-gap locked_header m pc s g = ground arith
  enter_of-gap semaphore_header m pc s g = ground arith
  enter_of-gap sysv_header m pc s g = ground arith
  enter_of-gap queue_header m pc s g = ground arith
  enter_of-gap sysv_queue_header m pc s g = ground arith

  -- A header accepts every method of the list: for one that it has no code for, cs_init returns and
  -- marks its resources, and from then on, while the method is in use, cs_enter lets every thread in
  -- at once and changes nothing.
  pub not_protected :
      (h : Header) (m : Method) (n : ℤ) (pc : EnterPc) (s t : Globals os)
      → method_of n ≡ some m
      → has_code h m ≡ false
      → t.cs_method_used ≡ n
      → (cs_init_of os h n s ≡ done tt (record s { cs_method_used = n; cs_var_allocated = true }))
        × (cs_enter_of os h pc t ≡ done none t)
  unfolding cs_enter_of
  not_protected h m n pc s t d g used = (
    cs_init_of-gap h m n s d g,
    ap (λ q. enter_of os h q pc t) (ap method_of used ∙ d) ∙ enter_of-gap h m pc t g,
  )

  -- whether a header's cs_destroy clears its mark, where the release of the resources succeeds
  abbrev pub clears_mark : Header → Method → Bool
  clears_mark queue_header mq_posix = true
  clears_mark sysv_queue_header mq_sysv = true
  clears_mark _ _ = false

  -- Where cs_destroy returns for a method for which it does not clear its mark, the mark and the
  -- method in use are as before, so that another call releases the resources again.
  pub cs_destroy_of-marked :
      (h : Header) (m : Method) (s t : Globals os)
      → method_of s.cs_method_used ≡ some m
      → clears_mark h m ≡ false
      → cs_destroy_of os h s ≡ done tt t
      → (t.cs_var_allocated ≡ s.cs_var_allocated) × (t.cs_method_used ≡ s.cs_method_used)
  unfolding cs_destroy_of BusyWait.cs_destroy Semaphores.cs_destroy SysvSemaphore.cs_destroy
      PosixQueue.cs_destroy SysvQueue.cs_destroy Semaphores.destroy_method
      SysvSemaphore.destroy_method PosixQueue.destroy_method SysvQueue.destroy_method
  cs_destroy_of-marked locked_header m s t d c h = ground arith
  cs_destroy_of-marked semaphore_header m s t d c h = ground arith
  cs_destroy_of-marked sysv_header m s t d c h = ground arith
  cs_destroy_of-marked queue_header m s t d c h = ground arith
  cs_destroy_of-marked sysv_queue_header m s t d c h = ground arith
