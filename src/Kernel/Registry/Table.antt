-- ===== src/Kernel/Registry/Table.antt =====
-- The kernel's registry fills the interface of a table of named slots.
use mene_os.Base.{
  ℕ, ◌≡◌, refl, true, false, List, take, take-copy_front, bytes_eq, bytes_eq→eq, bytes_eq_refl,
  arith,
}
use mene_os.NameTable.{NameTable}
use mene_os.Kernel.Registry.{RegistryEntry, matches, renew, is_free, occupy}

pub matches_same :
    (n m : List ℕ) (e : RegistryEntry) → matches n e ≡ true → matches m e ≡ bytes_eq n m
unfolding matches
matches_same n m e h =
    ground (arith, bytes_eq→eq (take e.name_len e.name) n, bytes_eq→eq n m, bytes_eq_refl n)

pub matches-occupy :
    (n m : List ℕ) (pid h : ℕ) (e : RegistryEntry) → matches m (occupy n pid h e) ≡ bytes_eq n m
unfolding matches
matches-occupy n m pid h e = ground (arith, take-copy_front n e.name, bytes_eq→eq n m)

pub matches-renew :
    (m : List ℕ) (pid h : ℕ) (e : RegistryEntry) → matches m (renew pid h e) ≡ matches m e
unfolding matches
matches-renew m pid h e = refl

pub matches_free : (m : List ℕ) (e : RegistryEntry) → is_free e ≡ true → matches m e ≡ false
unfolding matches
matches_free m e h = ground arith

abbrev pub entry_table : NameTable RegistryEntry
entry_table = record {
  matches = matches;
  is_free = is_free;
  handle_of = λ e. e.handle;
  renew = renew;
  occupy = occupy;
  matches_same = matches_same;
  matches-renew = matches-renew;
  is_free-renew = λ pid h e. refl;
  handle_of-renew = λ pid h e. refl;
  matches-occupy = matches-occupy;
  is_free-occupy = λ n pid h e. refl;
  handle_of-occupy = λ n pid h e. refl;
  matches_free = matches_free;
}
