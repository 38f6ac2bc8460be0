-- ===== src/Init/Registry/Laws.antt =====
-- apps/init/src/main.rs: the registry of init fills the interface of a table of named slots, and
-- what `lookup` finds after `register`.

use mene_os.Base.{
  ℕ, ◌≤◌, ◌<◌, ◌≡◌, ◌≢◌, ◌⊎◌, inl, inr, refl, sym, ◌∙◌, Option, some, Option-cases, Bool-cases, ltb,
  if◌then◌else◌, ◌||◌, true, false, List, length, take, take-copy_front, bytes_eq, bytes_eq→eq,
  bytes_eq_refl, ◌==◌, arith,
}
use mene_os.Base.Slots.{
  find_first, update_first, update_or_claim, update_or_claim_hit, update_or_claim_miss,
  find_first-none_of_update,
}
use mene_os.NameTable.{NameTable, binding}
use mene_os.NameTable.Lookup.{binding_renew, binding_occupy}
use mene_os.Init.Registry.{
  RegistrySlot, name_eq, renew, is_free, occupy, max_name, register, lookup,
}

pub name_eq_same :
    (n m : List ℕ) (e : RegistrySlot) → name_eq n e ≡ true → name_eq m e ≡ bytes_eq n m
unfolding name_eq
name_eq_same n m e h =
    ground (arith, bytes_eq→eq (take e.name_len e.name) n, bytes_eq→eq n m, bytes_eq_refl n)

pub name_eq-occupy :
    (n m : List ℕ) (pid h : ℕ) (e : RegistrySlot) → name_eq m (occupy n pid h e) ≡ bytes_eq n m
unfolding name_eq
name_eq-occupy n m pid h e = ground (arith, take-copy_front n e.name, bytes_eq→eq n m)

pub name_eq-renew :
    (m : List ℕ) (pid h : ℕ) (e : RegistrySlot) → name_eq m (renew pid h e) ≡ name_eq m e
unfolding name_eq
name_eq-renew m pid h e = refl

pub name_eq_free : (m : List ℕ) (e : RegistrySlot) → is_free e ≡ true → name_eq m e ≡ false
unfolding name_eq
name_eq_free m e h = ground arith

abbrev pub slot_table : NameTable RegistrySlot
slot_table = record {
  matches = name_eq;
  is_free = is_free;
  handle_of = λ e. e.cap_handle;
  renew = renew;
  occupy = occupy;
  matches_same = name_eq_same;
  matches-renew = name_eq-renew;
  is_free-renew = λ pid h e. refl;
  handle_of-renew = λ pid h e. refl;
  matches-occupy = name_eq-occupy;
  is_free-occupy = λ n pid h e. refl;
  handle_of-occupy = λ n pid h e. refl;
  matches_free = name_eq_free;
}

-- `lookup` is the binding of the table.
lookup-eq-binding :
    (n : List ℕ) (slots : List RegistrySlot) → lookup n slots ≡ binding slot_table slots n
unfolding lookup binding
lookup-eq-binding n slots = elim (Option-cases (find_first (name_eq n) slots)) [
  | inl e ↦ rw e
  | inr (x, e) ↦ rw e
]

module _ (name m : List ℕ) (pid h : ℕ) (slots : List RegistrySlot) where
  abbrev claimed : Option (List RegistrySlot)
  claimed = update_or_claim (name_eq name) (renew pid h) is_free (occupy name pid h) slots

  lookup-claimed :
      (filled : List RegistrySlot)
      → claimed ≡ some filled
      → lookup m filled ≡ (if bytes_eq name m then some h else lookup m slots)
  lookup-claimed filled c =
      rw (lookup-eq-binding m filled, lookup-eq-binding m slots)
        (elim (Option-cases (update_first (name_eq name) (renew pid h) slots)) [
          | inl e ↦
              binding_occupy slot_table name m pid h slots filled
                (find_first-none_of_update (name_eq name) (renew pid h) slots e)
                (sym (
                    update_or_claim_miss (name_eq name) is_free (renew pid h) (occupy name pid h)
                      slots e)
                  ∙ c)
          | inr (fs, e) ↦ binding_renew slot_table name m pid h slots filled (
              e
              ∙ sym (
                  update_or_claim_hit (name_eq name) is_free (renew pid h) (occupy name pid h) slots
                    fs e)
              ∙ c)
        ])

-- After a successful `register` the name has the new handle and every other name the handle that
-- it had; a `register` that fails changes nothing, and one with an empty or long name or with
-- handle 0 does fail.
pub lookup-register :
    (name m : List ℕ) (pid h : ℕ) (slots : List RegistrySlot)
    → let r = register name pid h slots in
      ((r.0 ≡ true)
        × (0 < length name)
        × (length name ≤ 32)
        × (h ≢ 0)
        × (lookup m r.1 ≡ (if bytes_eq name m then some h else lookup m slots)))
      ⊎ ((r.0 ≡ false) × (r.1 ≡ slots))
unfolding register
lookup-register name m pid h slots =
    elim (Bool-cases (length name == 0 || ltb max_name (length name) || h == 0)) [
      | inl bad ↦ inr (rw bad, rw bad)
      | inr good ↦ elim (Option-cases (claimed name m pid h slots)) [
        | inl full ↦ inr (rw (good, full), rw (good, full))
        | inr (filled, c) ↦
            rw (good, c)
              (inl (
                refl,
                ground (arith, good),
                ground (arith, good),
                (λ e. ground (arith, good, e)),
                lookup-claimed name m pid h slots filled c,
              ))
      ]
    ]
