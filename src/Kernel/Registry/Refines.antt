-- ===== src/Kernel/Registry/Refines.antt =====
-- The kernel's registry implements a bounded map from names to handles.
use mene_os.Base.{
  ℕ, ◌+◌, ◌-◌, ◌≤◌, ◌≡◌, refl, ap₂, inl, inr, true, false, ◌||◌, sym, ◌∙◌, bytes_eq→eq, Option,
  none, some, List, [], ◌∷◌, arith, length, bytes_eq, ltb, ◌==◌, if◌then◌else◌, Result, ok, err,
  Option-cases, Bool-cases,
}
use mene_os.Base.Slots.{
  find_first, update_first, update_or_claim, count_if, find_first-none_of_update,
  update_first-none_of_find, update_or_claim_hit, update_or_claim_miss, length-update_first,
  count_if-zero_of_find, count_if-le-length,
}
use mene_os.NameTable.{binding}
use mene_os.NameTable.Lookup.{binding_renew, binding_occupy, binding_clear}
use mene_os.NameTable.Count.{count_renew, count_occupy, count_clear}
use mene_os.Kernel.Registry.{
  RegistryError, RegistryEntry, invalid_name, invalid_handle, not_found, registry_full,
  max_services, max_name_len, empty, matches, renew, is_free, occupy, is_empty, new, or_full,
  or_missing, register, lookup, unregister,
}
use mene_os.Kernel.Registry.Table.{entry_table}

-- The specification: which handle a name has, and how many names there are.
pub record Names : Type 0 where
  pub bound : List ℕ → Option ℕ
  pub size : ℕ

abbrev pub no_names : Names
no_names = record { bound = λ n. none; size = 0 }

pub data Op : Type 0 where
  registers : List ℕ → ℕ → ℕ → Op
  looks_up : List ℕ → Op
  unregisters : List ℕ → Op

pub data Reply : Type 0 where
  done : Result RegistryError Unit → Reply
  found : Result RegistryError ℕ → Reply

abbrev bind_name : List ℕ → Option ℕ → (List ℕ → Option ℕ) → List ℕ → Option ℕ
bind_name name v f m = if bytes_eq name m then v else f m

abbrev spec_bind : List ℕ → ℕ → Option ℕ → Names → Reply × Names
spec_bind name handle (some old) s =
    (done (ok tt), record s { bound = bind_name name (some handle) s.bound })
spec_bind name handle none s =
    if ltb s.size max_services
    then (done (ok tt), record { bound = bind_name name (some handle) s.bound; size = s.size + 1 })
    else (done (err registry_full), s)

abbrev spec_unbind : List ℕ → Option ℕ → Names → Reply × Names
spec_unbind name none s = (done (err not_found), s)
spec_unbind name (some old) s =
    (done (ok tt), record { bound = bind_name name none s.bound; size = s.size - 1 })

abbrev spec_find : Option ℕ → Reply
spec_find none = found (err not_found)
spec_find (some h) = found (ok h)

pub spec_step : Op → Names → Reply × Names
spec_step (registers name pid handle) s =
    if is_empty name || ltb max_name_len (length name)
    then (done (err invalid_name), s)
    else if handle == 0
    then (done (err invalid_handle), s)
    else spec_bind name handle (s.bound name) s
spec_step (looks_up name) s = (spec_find (s.bound name), s)
spec_step (unregisters name) s = spec_unbind name (s.bound name) s

abbrev as_done : Result RegistryError Unit × List RegistryEntry → Reply × List RegistryEntry
as_done r = (done r.0, r.1)

pub step : Op → List RegistryEntry → Reply × List RegistryEntry
step (registers name pid handle) es = as_done (register name pid handle es)
step (looks_up name) es = (found (lookup name es), es)
step (unregisters name) es = as_done (unregister name es)

-- The replies to a list of calls, in order.
pub replies {ℓ} : {S : Type ℓ} → (Op → S → Reply × S) → List Op → S → List Reply
replies f [] s = []
replies f (op ∷ ops) s = (f op s).0 ∷ replies f ops (f op s).1

pub record Agrees (es : List RegistryEntry) (s : Names) : Type 0 where
  pub bindings : (n : List ℕ) → binding entry_table es n ≡ s.bound n
  pub sizes : count_if is_free es + s.size ≡ max_services
  pub unique : (n : List ℕ) → count_if (matches n) es ≤ 1
  pub width : length es ≡ max_services

free_slot :
    (g : RegistryEntry → RegistryEntry) (es : List RegistryEntry)
    → update_first is_free g es ≡ none
    → count_if is_free es ≡ 0
free_slot g es h = count_if-zero_of_find is_free es (find_first-none_of_update is_free g es h)

unbound :
    (n : List ℕ) (es : List RegistryEntry)
    → find_first (matches n) es ≡ none
    → binding entry_table es n ≡ none
unfolding binding
unbound n es h = rw h

-- The same reply, and states that still agree.
abbrev Refines : Reply × List RegistryEntry → Reply × Names → Type 0
Refines r q = (r.0 ≡ q.0) × Agrees r.1 q.1

module _ (es : List RegistryEntry) (s : Names) (a : Agrees es s) (name : List ℕ) where
  bound_none : find_first (matches name) es ≡ none → s.bound name ≡ none
  bound_none h = sym (a.bindings name) ∙ unbound name es h

  bound_some :
      (f : RegistryEntry → RegistryEntry) (fs : List RegistryEntry)
      → update_first (matches name) f es ≡ some fs
      → (old : ℕ) × (s.bound name ≡ some old)
  unfolding binding
  bound_some f fs h = elim (Option-cases (find_first (matches name) es)) [
    | inl e ↦ absurd (cc (h, update_first-none_of_find (matches name) f es e))
    | inr (x, e) ↦ (x.handle, sym (a.bindings name) ∙ rw e refl)
  ]

  renew_refines :
      (pid handle : ℕ) (fs : List RegistryEntry)
      → update_first (matches name) (renew pid handle) es ≡ some fs
      → Agrees fs (record s { bound = bind_name name (some handle) s.bound })
  renew_refines pid handle fs h = record {
    bindings = λ m. binding_renew entry_table name m pid handle es fs h ∙ rw (a.bindings m);
    sizes = omega (arith, a.sizes, (count_renew entry_table name name pid handle es fs h).1);
    unique = λ m. omega (arith, a.unique m, (count_renew entry_table name m pid handle es fs h).0);
    width = length-update_first (matches name) (renew pid handle) es h ∙ a.width;
  }

  occupy_refines :
      (pid handle : ℕ) (fs : List RegistryEntry)
      → find_first (matches name) es ≡ none
      → update_first is_free (occupy name pid handle) es ≡ some fs
      → Agrees fs (record { bound = bind_name name (some handle) s.bound; size = s.size + 1 })
  occupy_refines pid handle fs w h = record {
    bindings = λ m. binding_occupy entry_table name m pid handle es fs w h ∙ rw (a.bindings m);
    sizes = omega (arith, a.sizes, (count_occupy entry_table name name pid handle es fs h).1);
    unique = λ m. ground (
      arith,
      a.unique m,
      bytes_eq→eq name m,
      count_if-zero_of_find (matches name) es w,
      (count_occupy entry_table name m pid handle es fs h).0,
    );
    width = length-update_first is_free (occupy name pid handle) es h ∙ a.width;
  }

  clear_refines :
      (fs : List RegistryEntry)
      → update_first (matches name) (λ _. empty) es ≡ some fs
      → Agrees fs (record { bound = bind_name name none s.bound; size = s.size - 1 })
  unfolding matches
  clear_refines fs h = record {
    bindings = λ m.
        binding_clear entry_table name m empty es fs (λ x. refl) (a.unique name) h
        ∙ rw (a.bindings m);
    sizes = omega (
      arith,
      a.sizes,
      count_if-le-length is_free fs,
      length-update_first (matches name) (λ _. empty) es h,
      a.width,
      (count_clear entry_table name name empty es fs refl h).1,
    );
    unique = λ m. omega (arith, a.unique m, (count_clear entry_table name m empty es fs refl h).0);
    width = length-update_first (matches name) (λ _. empty) es h ∙ a.width;
  }

  clear_case :
      Refines
        (as_done (or_missing es (update_first (matches name) (λ _. empty) es)))
        (spec_unbind name (s.bound name) s)
  clear_case = elim (Option-cases (update_first (matches name) (λ _. empty) es)) [
    | inl e ↦
        rw (e, bound_none (find_first-none_of_update (matches name) (λ _. empty) es e)) (refl, a)
    | inr (fs, e) ↦
        let (old, b) = bound_some (λ _. empty) fs e in rw (e, b) (refl, clear_refines fs e)
  ]

  find_case : found (lookup name es) ≡ spec_find (s.bound name)
  unfolding lookup binding
  find_case = elim (Option-cases (find_first (matches name) es)) [
    | inl e ↦ rw (e, bound_none e)
    | inr (x, e) ↦
        let b : s.bound name ≡ some x.handle = sym (a.bindings name) ∙ rw e refl in rw (e, b)
  ]

  module _ (pid handle : ℕ) where
    abbrev claimed : Option (List RegistryEntry)
    claimed = update_or_claim (matches name) (renew pid handle) is_free (occupy name pid handle) es

    claim_new :
        update_first (matches name) (renew pid handle) es ≡ none
        → (o : Option (List RegistryEntry)) → update_first is_free (occupy name pid handle) es ≡ o
        → Refines (as_done (or_full es o)) (spec_bind name handle none s)
    claim_new e none v =
        let full : ltb s.size max_services ≡ false =
          ground (arith, a.sizes, free_slot (occupy name pid handle) es v) in
        rw full (refl, a)
    claim_new e (some fs) v =
        let absent = find_first-none_of_update (matches name) (renew pid handle) es e in
        let room : ltb s.size max_services ≡ true =
          ground (arith, a.sizes, (count_occupy entry_table name name pid handle es fs v).1) in
        rw room (refl, occupy_refines pid handle fs absent v)

    claim_case : Refines (as_done (or_full es claimed)) (spec_bind name handle (s.bound name) s)
    claim_case = elim (Option-cases (update_first (matches name) (renew pid handle) es)) [
      | inl e ↦
          rw
            (
              update_or_claim_miss (matches name) is_free (renew pid handle)
                  (occupy name pid handle) es e,
              bound_none (find_first-none_of_update (matches name) (renew pid handle) es e),
            )
            (claim_new e _ refl)
      | inr (fs, e) ↦
          let (old, b) = bound_some (renew pid handle) fs e in
          rw
            (
              update_or_claim_hit (matches name) is_free (renew pid handle) (occupy name pid handle)
                  es fs e,
              b,
            )
            (refl, renew_refines pid handle fs e)
    ]

-- One call gives the reply of the specification, and keeps the states in agreement.
pub step-Refines :
    (op : Op) (es : List RegistryEntry) (s : Names)
    → Agrees es s
    → Refines (step op es) (spec_step op s)
unfolding step spec_step register lookup unregister
step-Refines (registers name pid handle) es s a =
    elim (Bool-cases (is_empty name || ltb max_name_len (length name))) [
      | inl bad ↦ rw bad (refl, a)
      | inr good ↦ elim (Bool-cases (handle == 0)) [
        | inl zero_handle ↦ rw (good, zero_handle) (refl, a)
        | inr set_handle ↦ rw (good, set_handle) (claim_case es s a name pid handle)
      ]
    ]
step-Refines (looks_up name) es s a = (find_case es s a name, a)
step-Refines (unregisters name) es s a = clear_case es s a name

-- From states that agree, any calls get the replies of the specification.
pub replies-refines :
    (ops : List Op) (es : List RegistryEntry) (s : Names)
    → Agrees es s
    → replies step ops es ≡ replies spec_step ops s
unfolding replies
replies-refines [] es s a = refl
replies-refines (op ∷ ops) es s a =
    let (same, agree) = step-Refines op es s a in
    ap₂ ◌∷◌ same (replies-refines ops (step op es).1 (spec_step op s).1 agree)

new-Agrees : Agrees new no_names
unfolding binding find_first count_if matches
new-Agrees = record { bindings = λ n. refl; sizes = refl; unique = λ n. omega arith; width = refl }

-- Any sequence of `register`, `lookup` and `unregister` calls on a new registry gets exactly the
-- replies of a map from names to handles that holds at most 32 names.
pub registry_refines_map : (ops : List Op) → replies step ops new ≡ replies spec_step ops no_names
registry_refines_map ops = replies-refines ops new no_names new-Agrees
