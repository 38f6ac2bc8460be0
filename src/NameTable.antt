-- ===== src/NameTable.antt =====
-- The interface that the two service registries share: an array of named slots
-- (kernel/mene-kernel/src/service/registry.rs, and the `ServiceRegistry` of apps/init/src/main.rs).
pub mod Lookup
pub mod Count
use mene_os.Base.{ℕ, ◌≡◌, Bool, true, false, Option, none, some, List}
use mene_os.Base.{if◌then◌else◌, bytes_eq}
use mene_os.Base.Slots.{find_first}

-- What the loops of a registry do to one slot, with the laws that they rely on.
pub record NameTable (E : Type 0) : Type 0 where
  pub matches : List ℕ → E → Bool
  pub is_free : E → Bool
  pub handle_of : E → ℕ
  pub renew : ℕ → ℕ → E → E
  pub occupy : List ℕ → ℕ → ℕ → E → E
  pub matches_same : (n m : List ℕ) (e : E) → matches n e ≡ true → matches m e ≡ bytes_eq n m
  pub matches-renew : (m : List ℕ) (pid h : ℕ) (e : E) → matches m (renew pid h e) ≡ matches m e
  pub is_free-renew : (pid h : ℕ) (e : E) → is_free (renew pid h e) ≡ is_free e
  pub handle_of-renew : (pid h : ℕ) (e : E) → handle_of (renew pid h e) ≡ h
  pub matches-occupy :
      (n m : List ℕ) (pid h : ℕ) (e : E) → matches m (occupy n pid h e) ≡ bytes_eq n m
  pub is_free-occupy : (n : List ℕ) (pid h : ℕ) (e : E) → is_free (occupy n pid h e) ≡ false
  pub handle_of-occupy : (n : List ℕ) (pid h : ℕ) (e : E) → handle_of (occupy n pid h e) ≡ h
  pub matches_free : (m : List ℕ) (e : E) → is_free e ≡ true → matches m e ≡ false

-- `iter().find(|e| e.matches(name)).map(|e| e.handle)`
module _ {E : Type 0} (t : NameTable E) where
  abbrev pub handle_option : Option E → Option ℕ
  handle_option none = none
  handle_option (some e) = some (t.handle_of e)

  unfoldable pub binding : List E → List ℕ → Option ℕ
  binding es n = handle_option (find_first (t.matches n) es)
