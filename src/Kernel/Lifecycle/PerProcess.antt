-- ===== src/Kernel/Lifecycle/PerProcess.antt =====
-- Each process has its own state machine, and process numbers are not given out twice.
use mene_os.Base.{
  ℕ, zero, suc, ◌+◌, ◌≤◌, ◌<◌, ◌^◌, ◌≡◌, ◌≢◌, refl, ◌∙◌, ap, List, [], ◌∷◌, Option, none, some,
  arith, ◌==◌, if◌then◌else◌,
}
use mene_os.Base.Int.{ℤ}
use mene_os.Base.BTreeMap.{get, get-insert, get-remove, get-modify}
use mene_os.Kernel.Lifecycle.{
  ProcessState, created, exited, faulted, ProcessLifecycle, Supervisor, allocate_pid,
  register_process, transition_state, mark_process_exited, mark_process_faulted, cleanup_process,
}

pub data Event : Type 0 where
  registers faults cleans : ℕ → Event
  moves : ℕ → ProcessState → Event
  exits : ℕ → ℤ → Event

pub apply : Event → Supervisor → Supervisor
apply (registers pid) s = register_process pid s
apply (faults pid) s = mark_process_faulted pid s
apply (cleans pid) s = cleanup_process pid s
apply (moves pid new_state) s = transition_state pid new_state s
apply (exits pid code) s = mark_process_exited pid code s

pub run : List Event → Supervisor → Supervisor
run [] s = s
run (e ∷ es) s = run es (apply e s)

-- The specification: the life of one process, `none` while it is not in the table.
pub record Life : Type 0 where
  pub state : ProcessState
  pub exit_code : Option ℤ

abbrev live : Option ProcessLifecycle → Option Life
live none = none
live (some l) = some (record { state = l.state; exit_code = l.exit_code })

pub life : ℕ → Supervisor → Option Life
life pid s = live (get pid s.lifecycles)

abbrev pub change : (Life → Life) → Option Life → Option Life
change f none = none
change f (some l) = some (f l)

pub spec_apply : ℕ → Event → Option Life → Option Life
spec_apply j (registers pid) l =
    if pid == j then some (record { state = created; exit_code = none }) else l
spec_apply j (faults pid) l = if pid == j then change (λ x. record x { state = faulted }) l else l
spec_apply j (cleans pid) l = if pid == j then none else l
spec_apply j (moves pid new_state) l =
    if pid == j then change (λ x. record x { state = new_state }) l else l
spec_apply j (exits pid code) l =
    if pid == j then change (λ x. record { state = exited; exit_code = some code }) l else l

pub spec_run : ℕ → List Event → Option Life → Option Life
spec_run j [] l = l
spec_run j (e ∷ es) l = spec_run j es (spec_apply j e l)

life-apply : (j : ℕ) (e : Event) (s : Supervisor) → life j (apply e s) ≡ spec_apply j e (life j s)
unfolding life apply spec_apply register_process mark_process_faulted cleanup_process
    transition_state mark_process_exited
life-apply j (registers pid) s = rw get-insert (ground arith)
life-apply j (faults pid) s = rw get-modify (ground arith)
life-apply j (cleans pid) s = rw get-remove (ground arith)
life-apply j (moves pid new_state) s = rw get-modify (ground arith)
life-apply j (exits pid code) s = rw get-modify (ground arith)

-- After any sequence of supervisor calls on any processes, the state and the exit code of process
-- `j` are those of its own state machine, which only the calls that name `j` move, and a process
-- that is not registered stays absent.
pub life-run :
    (j : ℕ) (es : List Event) (s : Supervisor) → life j (run es s) ≡ spec_run j es (life j s)
unfolding run spec_run
life-run j [] s = refl
life-run j (e ∷ es) s = life-run j es (apply e s) ∙ ap (spec_run j es) (life-apply j e s)

-- `n` calls of `allocate_pid`, oldest first.
pub allocate_pids : ℕ → Supervisor → List ℕ
allocate_pids zero s = []
allocate_pids (suc n) s = (allocate_pid s).0 ∷ allocate_pids n (allocate_pid s).1

abbrev pub AllNe : ℕ → List ℕ → Type 0
AllNe x [] = Unit {0}
AllNe x (y ∷ ys) = (x ≢ y) × AllNe x ys

abbrev pub IsDistinct : List ℕ → Type 0
IsDistinct [] = Unit {0}
IsDistinct (x ∷ xs) = AllNe x xs × IsDistinct xs

allocate_pids-AllNe :
    (x n : ℕ) (s : Supervisor)
    → x < s.next_pid
    → s.next_pid + n ≤ 2 ^ 64
    → AllNe x (allocate_pids n s)
unfolding allocate_pids allocate_pid
allocate_pids-AllNe x zero s h k = tt
allocate_pids-AllNe x (suc zero) s h k = (omega arith, tt)
allocate_pids-AllNe x (suc (suc n)) s h k =
    (omega arith, allocate_pids-AllNe x (suc n) (allocate_pid s).1 (omega arith) (omega arith))

-- Until the 64-bit counter wraps around, the numbers that `allocate_pid` gives out are distinct.
pub allocate_pids-IsDistinct :
    (n : ℕ) (s : Supervisor) → s.next_pid + n ≤ 2 ^ 64 → IsDistinct (allocate_pids n s)
unfolding allocate_pids allocate_pid
allocate_pids-IsDistinct zero s h = tt
allocate_pids-IsDistinct (suc zero) s h = (tt, tt)
allocate_pids-IsDistinct (suc (suc n)) s h = (
  allocate_pids-AllNe s.next_pid (suc n) (allocate_pid s).1 (omega arith) (omega arith),
  allocate_pids-IsDistinct (suc n) (allocate_pid s).1 (omega arith),
)
