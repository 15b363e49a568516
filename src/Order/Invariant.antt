-- ===== src/Order/Invariant.antt =====
-- The order of the output, and how the program ends.
use nnos.Prelude.{
  ℕ, ◌≡◌, ◌⊎◌, Bool, true, false, ◌||◌, ◌&&◌, Option, none, some, List, [], ◌∷◌, ◌++◌,
  if◌then◌else◌, refl, arith,
}
use mathlib.Core.Path.{subst}
use nnos.Order.{
  FirstPc, working, entered, printed_1, signalled, ended, MainPc, arriving, checking, waiting,
  woken, resumed, printed_2, joining, returned, Sys, begin, Who, thread_f1, main_thread, step,
  step_f1, step_main, Reach, here, next,
}

abbrev pub has_printed_1 : FirstPc → Bool
has_printed_1 working = false
has_printed_1 entered = false
has_printed_1 _ = true

abbrev pub has_signalled : FirstPc → Bool
has_signalled signalled = true
has_signalled ended = true
has_signalled _ = false

abbrev pub has_printed_2 : MainPc → Bool
has_printed_2 printed_2 = true
has_printed_2 joining = true
has_printed_2 returned = true
has_printed_2 _ = false

-- main has got the signal
abbrev pub has_woken : MainPc → Bool
has_woken arriving = false
has_woken checking = false
has_woken waiting = false
has_woken _ = true

abbrev first_holds : FirstPc → Bool
first_holds entered = true
first_holds printed_1 = true
first_holds signalled = true
first_holds _ = false

abbrev main_holds : MainPc → Bool
main_holds checking = true
main_holds resumed = true
main_holds printed_2 = true
main_holds _ = false

-- what has been printed
abbrev pub text : FirstPc → MainPc → List ℕ
text f m = (if has_printed_1 f then 1 ∷ [] else []) ++ (if has_printed_2 m then 2 ∷ [] else [])

pub record IsOrdered (s : Sys) : Type 0 where
  pub owner : s.locked ≡ (first_holds s.first || main_holds s.main)
  pub alone : (first_holds s.first && main_holds s.main) ≡ false
  pub after_signal : has_woken s.main ≡ true → has_signalled s.first ≡ true
  pub printed : s.output ≡ text s.first s.main

begin-IsOrdered : IsOrdered begin
begin-IsOrdered = record { owner = refl; alone = refl; after_signal = λ e. e; printed = refl }

abbrev pub sys : FirstPc → MainPc → Bool → List ℕ → Sys
sys f m l o = record { first = f; main = m; locked = l; output = o }

abbrev Keeps : Option Sys → Type 0
Keeps none = Unit
Keeps (some t) = IsOrdered t

step_f1-Keeps :
    (f : FirstPc) (m : MainPc) (l : Bool) (o : List ℕ)
    → IsOrdered (sys f m l o)
    → Keeps (step_f1 f (sys f m l o))
unfolding step_f1
step_f1-Keeps working m true o i = tt
step_f1-Keeps working m false o i = record {
  owner = ground (arith, i.owner);
  alone = ground (arith, i.owner);
  after_signal = λ e. ground (arith, i.after_signal e);
  printed = i.printed;
}
step_f1-Keeps entered m l o i = record {
  owner = i.owner;
  alone = i.alone;
  after_signal = λ e. ground (arith, i.after_signal e);
  printed = ground (arith, i.printed, i.after_signal);
}
step_f1-Keeps printed_1 m l o i = record {
  owner = ground (arith, i.owner);
  alone = ground (arith, i.alone);
  after_signal = λ e. refl;
  printed = ground (arith, i.printed);
}
step_f1-Keeps signalled m l o i = record {
  owner = ground (arith, i.alone);
  alone = refl;
  after_signal = λ e. refl;
  printed = i.printed;
}
step_f1-Keeps ended m l o i = tt

step_main-Keeps :
    (f : FirstPc) (m : MainPc) (l : Bool) (o : List ℕ)
    → IsOrdered (sys f m l o)
    → Keeps (step_main m (sys f m l o))
unfolding step_main
step_main-Keeps f arriving true o i = tt
step_main-Keeps f arriving false o i = record {
  owner = ground (arith, i.owner);
  alone = ground (arith, i.owner);
  after_signal = λ e. i.after_signal e;
  printed = i.printed;
}
step_main-Keeps f checking l o i = record {
  owner = ground (arith, i.alone);
  alone = ground (arith, i.alone);
  after_signal = λ e. i.after_signal e;
  printed = i.printed;
}
step_main-Keeps f waiting l o i = tt
step_main-Keeps f woken true o i = tt
step_main-Keeps f woken false o i = record {
  owner = ground (arith, i.owner);
  alone = ground (arith, i.owner);
  after_signal = λ e. i.after_signal e;
  printed = i.printed;
}
step_main-Keeps f resumed l o i = record {
  owner = i.owner;
  alone = i.alone;
  after_signal = λ e. i.after_signal e;
  printed = ground (arith, i.printed);
}
step_main-Keeps f printed_2 l o i = record {
  owner = ground (arith, i.alone);
  alone = ground (arith, i.alone);
  after_signal = λ e. i.after_signal e;
  printed = i.printed;
}
step_main-Keeps ended joining l o i = record {
  owner = i.owner;
  alone = i.alone;
  after_signal = λ e. i.after_signal e;
  printed = i.printed;
}
step_main-Keeps _ joining l o i = tt
step_main-Keeps f returned l o i = tt

pub step-IsOrdered : (p : Who) (s t : Sys) → IsOrdered s → step p s ≡ some t → IsOrdered t
unfolding step
step-IsOrdered thread_f1 s t i e = subst Keeps e (step_f1-Keeps s.first s.main s.locked s.output i)
step-IsOrdered main_thread s t i e =
    subst Keeps e (step_main-Keeps s.first s.main s.locked s.output i)

Reach-IsOrdered : {s t : Sys} → Reach s t → IsOrdered s → IsOrdered t
Reach-IsOrdered here i = i
Reach-IsOrdered (next {t = t} {u = u} p r e) i = step-IsOrdered p t u (Reach-IsOrdered r i) e

pub reached-IsOrdered : {s : Sys} → Reach begin s → IsOrdered s
reached-IsOrdered r = Reach-IsOrdered r begin-IsOrdered

text-cases :
    (f : FirstPc) (m : MainPc)
    → (has_woken m ≡ true → has_signalled f ≡ true)
    → (text f m ≡ []) ⊎ ((text f m ≡ 1 ∷ []) ⊎ (text f m ≡ 1 ∷ 2 ∷ []))
text-cases f m h = ground (arith, h)

-- Whatever the schedule, without a wakeup that nobody asked for, what has been printed is a part of
-- 1, 2 from the start: nothing, 1, or 1 and 2.
pub in_order :
    (s : Sys) → Reach begin s → (s.output ≡ []) ⊎ ((s.output ≡ 1 ∷ []) ⊎ (s.output ≡ 1 ∷ 2 ∷ []))
in_order s r =
    let i = reached-IsOrdered r in rw i.printed (text-cases s.first s.main i.after_signal)
