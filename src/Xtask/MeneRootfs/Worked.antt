-- ===== src/Xtask/MeneRootfs/Worked.antt =====
-- The outcome of the run: everything was done, or a first command failed.
use mene_os.Base.{
  ℕ, suc, ◌≡◌, ◌<◌, ◌⊎◌, inl, inr, refl, sym, ◌∙◌, Bool, true, false, ◌&&◌, List, [], ◌∷◌, ◌++◌,
  Option, none, some, Result, ok, err, arith, length, take, map,
}
use mathlib.Core.List.{append-nil, append_assoc}
use mene_os.Xtask.{
  text, XtaskError, io, message, Command, Status, not_started, exited, Shell, status, next_status,
}
use mene_os.Xtask.MeneRootfs.{Entry, apps_in, run}
use mene_os.Xtask.MeneRootfs.Plan.{Task, plan, settle, execute, run-execute}

-- Whether a command ends as the tool wants, and whether all of a list do.
abbrev pub is_fine : Option (List ℕ) → Status → Bool
is_fine failure not_started = false
is_fine none (exited success) = true
is_fine (some failure) (exited success) = success

abbrev pub all_fine : List Task → List Status → Bool
all_fine [] xs = true
all_fine (t ∷ ts) xs = let (x, rest) = next_status xs in is_fine t.failure x && all_fine ts rest

abbrev pub commands : List Task → List Command
commands ts = map (λ t. t.command) ts

-- All commands were run, or a first one failed and none behind it was run.
abbrev pub Worked : List Task → Shell → Result XtaskError Unit × Shell → Type 0
Worked ts before (result, after) =
    ((all_fine ts before.statuses ≡ true)
      × (result ≡ ok tt)
      × (after.ran ≡ before.ran ++ commands ts))
    ⊎ ((e : XtaskError) × (k : ℕ) × (k < length ts)
        × (all_fine (take k ts) before.statuses ≡ true)
        × (all_fine (take (suc k) ts) before.statuses ≡ false)
        × (result ≡ err e)
        × (after.ran ≡ before.ran ++ take (suc k) (commands ts)))

settle_cases :
    (failure : Option (List ℕ)) (x : Status) (sh : Shell)
    → ((is_fine failure x ≡ true) × (settle failure (x, sh) ≡ (ok tt, sh)))
      ⊎ ((is_fine failure x ≡ false) × ((e : XtaskError) × (settle failure (x, sh) ≡ (err e, sh))))
settle_cases none not_started sh = inr (refl, (io, refl))
settle_cases none (exited success) sh = inl (refl, refl)
settle_cases (some failure) not_started sh = inr (refl, (io, refl))
settle_cases (some failure) (exited true) sh = inl (refl, refl)
settle_cases (some failure) (exited false) sh = inr (refl, (message failure, refl))

-- What is worked off behind a command that ended as the tool wants.
Worked-after :
    (t : Task) (ts : List Task) (sh : Shell) (x : Result XtaskError Unit × Shell)
    → is_fine t.failure (next_status sh.statuses).0 ≡ true
    → Worked ts (status t.command sh).1 x
    → Worked (t ∷ ts) sh x
unfolding status
Worked-after t ts sh x ends (inl (all, result, ran)) =
    inl (rw ends all, result, ran ∙ append_assoc sh.ran (t.command ∷ []) (commands ts))
Worked-after t ts sh x ends (inr (e, k, lt, before, now, result, ran)) = inr (
  e,
  suc k,
  omega (arith, lt),
  rw ends before,
  rw ends now,
  result,
  ran ∙ append_assoc sh.ran (t.command ∷ []) (take (suc k) (commands ts)),
)

execute-Worked : (ts : List Task) (sh : Shell) → Worked ts sh (execute ts sh)
unfolding execute status
execute-Worked [] sh = inl (refl, refl, sym (append-nil sh.ran))
execute-Worked (t ∷ ts) sh =
    let (x, sh') = status t.command sh in
    elim (settle_cases t.failure x sh') [
      | inl (ends, went) ↦
          rw went (Worked-after t ts sh (execute ts sh') ends (execute-Worked ts sh'))
      | inr (fails, (e, went)) ↦ rw went (inr (e, 0, omega arith, refl, rw fails refl, refl, refl))
    ]

-- For the architecture aarch64, whatever the commands answer: either all commands of the plan end as
-- the tool wants, the tool returns `Ok` and has run exactly the plan; or some command of the plan is
-- the first that does not, the tool returns an error, and this command is the last that it has run. The
-- commands that make the image and reset /boot only have to start.
pub run-Worked :
    (exists : Bool) (entries : Option (List Entry)) (sh : Shell)
    → Worked (plan exists (apps_in entries)) sh (run (text "aarch64") exists entries sh)
run-Worked exists entries sh =
    rw (run-execute exists entries sh) (execute-Worked (plan exists (apps_in entries)) sh)
