-- ===== src/Init/BootGraph/Valid.antt =====
-- What `parse_boot_graph` leaves is well-formed, whatever the text is.
use mene_os.Base.{
  ℕ, ◌≤◌, ◌<◌, ◌≡◌, refl, ◌∙◌, subst, min, Bool, true, false, not, ◌||◌, List, [], ◌∷◌, Option,
  none, some, arith, length, take, set, length-set, length-take, length-copy_front, get_or-set_self,
  get_or-set_ne, leb, ltb, ◌==◌, if◌then◌else◌, bytes_eq, Bool-cases, inl, inr,
}
use mene_os.Base.Text.{trim, split, lines}
use mene_os.Init.Registry.{max_services}
use mene_os.Init.Services.{ServiceSpec, empty_spec, max_deps}
use mene_os.Init.BootGraph.{
  copy_bytes, add_dep, add_deps, parse_dep_list, set_key, Parse, finish_spec, finish_current,
  named_spec, set_current, parse_line, parse_lines, clean_line, parse_service_section_name,
  begin_parse, parse_boot_graph, parse_kv, key_binary, key_depends_on, key_restart_policy,
  key_health_probe, key_launch,
}
use mene_os.Init.BootGraph.Names.{spec_at}
use mene_os.Init.BootGraph.Dependencies.{resolve_dep_mask-spec_at}

-- The sizes of the arrays of a specification, and the lengths that are used of them.
pub record Sizes (name name_len binary binary_len dep_names dep_name_lens dep_count : ℕ)
    : Type 0 where
  pub name_size : name ≡ 32
  pub name_fits : name_len ≤ 32
  pub binary_size : binary ≡ 128
  pub binary_fits : binary_len ≤ 128
  pub deps_size : dep_names ≡ 4
  pub lens_size : dep_name_lens ≡ 4
  pub deps_fit : dep_count ≤ 4

abbrev pub IsSpec : ServiceSpec → Type 0
IsSpec s =
    Sizes (length s.name) s.name_len (length s.binary) s.binary_len (length s.dep_names)
      (length s.dep_name_lens) s.dep_count

-- A specification in the list of `parse_boot_graph`.
pub record IsListed (s : ServiceSpec) : Type 0 where
  pub sizes : IsSpec s
  pub valid : s.valid ≡ true
  pub named : 0 < s.name_len
  pub started_by : 0 < s.binary_len

if-elim {ℓ κ} :
    {A : Type ℓ} (P : A → Type κ) (b : Bool) (x y : A) → P x → P y → P (if b then x else y)
if-elim P true x y p q = p
if-elim P false x y p q = q

length-copy_bytes :
    (dst src : List ℕ)
    → ((copy_bytes dst src).0 ≤ length dst) × (length (copy_bytes dst src).1 ≡ length dst)
length-copy_bytes dst src =
    let n = min (length dst) (length src) in
    (omega arith, length-copy_front (take n src) dst (omega (arith, length-take n src)))

empty_spec-IsSpec : IsSpec empty_spec
empty_spec-IsSpec = record {
  name_size = refl;
  name_fits = omega arith;
  binary_size = refl;
  binary_fits = omega arith;
  deps_size = refl;
  lens_size = refl;
  deps_fit = omega arith;
}

named_spec-IsSpec : (name : List ℕ) → IsSpec (named_spec name)
named_spec-IsSpec name =
    let (fits, size) = length-copy_bytes empty_spec.name name in
    record {
      name_size = size;
      name_fits = fits;
      binary_size = refl;
      binary_fits = omega arith;
      deps_size = refl;
      lens_size = refl;
      deps_fit = omega arith;
    }

add_dep-IsSpec : (s : ServiceSpec) (dep : List ℕ) → IsSpec s → IsSpec (add_dep s dep)
add_dep-IsSpec s dep h = elim (Bool-cases (length dep == 0 || leb max_deps s.dep_count)) [
  | inl skip ↦ rw skip h
  | inr add ↦ rw add (record {
    name_size = h.name_size;
    name_fits = h.name_fits;
    binary_size = h.binary_size;
    binary_fits = h.binary_fits;
    deps_size = length-set s.dep_names s.dep_count _ ∙ h.deps_size;
    lens_size = length-set s.dep_name_lens s.dep_count _ ∙ h.lens_size;
    deps_fit = ground (arith, add);
  })
]

add_deps-IsSpec : (s : ServiceSpec) (parts : List (List ℕ)) → IsSpec s → IsSpec (add_deps s parts)
unfolding add_deps
add_deps-IsSpec s [] h = h
add_deps-IsSpec s (part ∷ parts) h =
    add_deps-IsSpec (add_dep s (trim part)) parts (add_dep-IsSpec s (trim part) h)

abbrev with_binary : ServiceSpec → List ℕ → ServiceSpec
with_binary s v = record s {
  binary = (copy_bytes s.binary v).1;
  binary_len = (copy_bytes s.binary v).0;
}

with_binary-IsSpec : (s : ServiceSpec) (v : List ℕ) → IsSpec s → IsSpec (with_binary s v)
with_binary-IsSpec s v h =
    let (fits, size) = length-copy_bytes s.binary v in
    record {
      name_size = h.name_size;
      name_fits = h.name_fits;
      binary_size = size ∙ h.binary_size;
      binary_fits = omega (arith, fits, h.binary_size);
      deps_size = h.deps_size;
      lens_size = h.lens_size;
      deps_fit = h.deps_fit;
    }

no_deps-IsSpec : (s : ServiceSpec) → IsSpec s → IsSpec (record s { dep_count = 0 })
no_deps-IsSpec s h = record {
  name_size = h.name_size;
  name_fits = h.name_fits;
  binary_size = h.binary_size;
  binary_fits = h.binary_fits;
  deps_size = h.deps_size;
  lens_size = h.lens_size;
  deps_fit = omega arith;
}

set_key-IsSpec : (s : ServiceSpec) (k v : List ℕ) → IsSpec s → IsSpec (set_key s k v)
unfolding set_key parse_dep_list
set_key-IsSpec s k v h = if-elim IsSpec (bytes_eq k key_binary) _ _ (with_binary-IsSpec s v h) (
    if-elim IsSpec (bytes_eq k key_depends_on) _ _
      (add_deps-IsSpec (record s { dep_count = 0 }) (split b',' v) (no_deps-IsSpec s h))
      (if-elim IsSpec (bytes_eq k key_restart_policy) _ _ h (
        if-elim IsSpec (bytes_eq k key_health_probe) _ _ h
          (if-elim IsSpec (bytes_eq k key_launch) _ _ h h))))

-- What holds between the rounds of the loop over the lines.
pub record IsParse (s : Parse) : Type 0 where
  pub size : length s.out ≡ 16
  pub fits : s.count ≤ 16
  pub current : IsSpec s.cur
  pub listed : (i : ℕ) → i < s.count → IsListed (spec_at s.out i)

finish_spec-IsParse : (s : Parse) → IsParse s → IsParse (finish_spec s)
unfolding finish_spec
finish_spec-IsParse s h =
    elim (Bool-cases (
      not s.cur.valid
      || s.cur.name_len == 0
      || s.cur.binary_len == 0
      || leb max_services s.count)) [
        | inl skip ↦ rw skip h
        | inr add ↦ rw add (record {
          size = length-set s.out s.count s.cur ∙ h.size;
          fits = ground (arith, add);
          current = h.current;
          listed = λ i lt. elim (Bool-cases (s.count == i)) [
            | inl same ↦
                let e : s.count ≡ i = ground (arith, same) in
                subst (λ k. IsListed (spec_at (set s.out s.count s.cur) k)) e
                  (rw (get_or-set_self s.out s.count s.cur empty_spec (ground (arith, add, h.size)))
                    (record {
                      sizes = h.current;
                      valid = ground (arith, add);
                      named = ground (arith, add);
                      started_by = ground (arith, add);
                    }))
            | inr other ↦
                rw (get_or-set_ne s.out s.count i s.cur empty_spec (ground (arith, other)))
                  (h.listed i (ground (arith, lt, other)))
          ];
        })
      ]

finish_current-IsParse : (s : Parse) → IsParse s → IsParse (finish_current s)
finish_current-IsParse s h = if-elim IsParse s.in_service _ _ (finish_spec-IsParse s h) h

-- A change of the current specification and of the flag.
IsParse-with_cur :
    (s : Parse) (cur : ServiceSpec) (b : Bool)
    → IsSpec cur
    → IsParse s
    → IsParse (record s { cur = cur; in_service = b })
IsParse-with_cur s cur b c h = record {
  size = h.size;
  fits = h.fits;
  current = c;
  listed = h.listed;
}

set_current-IsParse :
    (kv : Option (List ℕ × List ℕ)) (s : Parse) → IsParse s → IsParse (set_current kv s)
set_current-IsParse none s h = h
set_current-IsParse (some (k, v)) s h =
    IsParse-with_cur s (set_key s.cur k v) s.in_service (set_key-IsSpec s.cur k v h.current) h

parse_line-IsParse :
    (line : List ℕ) (section : Option (List ℕ)) (s : Parse)
    → IsParse s
    → IsParse (parse_line line section s)
parse_line-IsParse line none s h =
    if-elim IsParse s.in_service _ _ (set_current-IsParse (parse_kv line) s h) h
parse_line-IsParse line (some name) s h =
    IsParse-with_cur (finish_current s) (named_spec name) true (named_spec-IsSpec name)
      (finish_current-IsParse s h)

parse_lines-IsParse : (raws : List (List ℕ)) (s : Parse) → IsParse s → IsParse (parse_lines raws s)
unfolding parse_lines
parse_lines-IsParse [] s h = h
parse_lines-IsParse (raw ∷ raws) s h =
    let line = clean_line raw in
    parse_lines-IsParse raws _ (
      if-elim IsParse (length line == 0) _ _ h
        (parse_line-IsParse line (parse_service_section_name line) s h))

begin_parse-IsParse : (out : List ServiceSpec) → length out ≡ 16 → IsParse (begin_parse out)
begin_parse-IsParse out h = record {
  size = h;
  fits = omega arith;
  current = empty_spec-IsSpec;
  listed = λ i lt. absurd (omega (arith, lt));
}

abbrev pub parsed : List ℕ → List ServiceSpec → Parse
parsed config out = finish_current (parse_lines (lines config) (begin_parse out))

pub parsed-IsParse :
    (config : List ℕ) (out : List ServiceSpec) → length out ≡ 16 → IsParse (parsed config out)
parsed-IsParse config out h =
    finish_current-IsParse _ (parse_lines-IsParse (lines config) _ (begin_parse-IsParse out h))

-- Whatever the text is, `parse_boot_graph` finds at most 16 services in it, and each has a name of
-- 1 to 32 bytes, a binary of 1 to 128 bytes and at most 4 dependencies, in arrays of their sizes.
pub parse_boot_graph-IsListed :
    (config : List ℕ) (out : List ServiceSpec) (i : ℕ)
    → length out ≡ 16
    → i < (parse_boot_graph config out).1
    → ((parse_boot_graph config out).1 ≤ 16) × IsListed (spec_at (parse_boot_graph config out).0 i)
unfolding parse_boot_graph
parse_boot_graph-IsListed config out i h lt =
    let p = parsed-IsParse config out h in
    let s = parsed config out in
    let masked = resolve_dep_mask-spec_at s.out s.count i (omega (arith, p.fits, p.size)) in
    let inside : ltb i s.count ≡ true = ground (arith, lt) in
    let l = p.listed i lt in
    (
      p.fits,
      rw (masked, inside)
          (record { sizes = l.sizes; valid = l.valid; named = l.named; started_by = l.started_by }),
    )
