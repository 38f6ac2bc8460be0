-- ===== src/Kernel/Syscall/Dispatch/Numbers.antt =====
-- Which arm serves which number.
use mene_os.Base.{◌≡◌, ◌≢◌, ◌⊎◌, inl, inr, sym, ◌∙◌, ap, none, some, Option-cases}
use mene_os.Abi.Regs.{Regs}
use mene_os.Abi.Sysno.{MeneSysno, to_usize, try_from, try_from_iff}
use mene_os.Kernel.Memory.{Machine}
use mene_os.Kernel.Syscall.System.{System, Loader}
use mene_os.Kernel.Syscall.Dispatch.{
  Memory, Env, Caller, serve_mene, serve_linux, dispatch, handle_syscall,
}

module _ (m : Machine) (l : Loader) (env : Env) where
  -- The number of a native call is served by the arm of this call, and any other number by the arm of
  -- the Linux call that has it.
  pub handle_syscall_lem :
      (c : Caller m) (r : Regs) (mem : Memory) (s : System m)
      → ((call : MeneSysno) × (to_usize call ≡ r.sysno)
          × (handle_syscall m l env c r mem s ≡ serve_mene m l env call c r mem s))
        ⊎ (((call : MeneSysno) → to_usize call ≢ r.sysno)
            × (handle_syscall m l env c r mem s
                ≡ serve_linux m l env (env.linux r.sysno) c r mem s))
  unfolding handle_syscall
  handle_syscall_lem c r mem s = elim (Option-cases (try_from r.sysno)) [
    | inl unknown ↦ inr (
      λ call e. let same : none ≡ some call = sym unknown ∙ (try_from_iff r.sysno call).1 e in cc,
      ap (λ x. dispatch m l env x c r mem s) unknown,
    )
    | inr (call, known) ↦
        inl
          (call, (try_from_iff r.sysno call).0 known, ap (λ x. dispatch m l env x c r mem s) known)
  ]
