-- ===== src/Abi/Regs.antt =====
-- The registers of a system call, on both sides of the instruction `svc` in apps/ulib/src/lib.rs.
use mene_os.Base.{ℕ}

-- x8 and x0 to x3
pub record Regs : Type 0 where
  pub sysno : ℕ
  pub arg0 : ℕ
  pub arg1 : ℕ
  pub arg2 : ℕ
  pub arg3 : ℕ
