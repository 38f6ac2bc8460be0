-- ===== src/Kernel/Task/Preload.antt =====
-- What the boot preload leaves in the cache.
use mene_os.Base.{
  ℕ, ◌≡◌, refl, sym, ◌∙◌, ap, Bool, true, false, ◌||◌, List, [], ◌∷◌, Option, none, some,
  if◌then◌else◌, bytes_eq, bytes_eq_iff, Bool-cases, inl, inr, ◌⊎◌,
}
use mene_os.Base.Utf8.{is_utf8}
use mene_os.Kernel.Task.{
  Assets, find_elf, contains_key, cached, preload_paths, bootstrap_paths, preload_boot_assets,
  preload_cfg, boot_toml, boot_init, get_preloaded_elf,
}

abbrev or_else : Option (List ℕ) → Option (List ℕ) → Option (List ℕ)
or_else none old = old
or_else (some elf) old = some elf

-- Whether the path is one of these.
abbrev pub is_listed : List ℕ → List (List ℕ) → Bool
is_listed q [] = false
is_listed q (p ∷ ps) = bytes_eq p q || is_listed q ps

abbrev pub file_if : Bool → Option (List ℕ) → Option (List ℕ)
file_if true file = file
file_if false file = none

find_elf-cached :
    (path q : List ℕ) (file : Option (List ℕ)) (cache : List (List ℕ × List ℕ))
    → find_elf q (cached path file cache)
      ≡ or_else (file_if (bytes_eq path q) file) (find_elf q cache)
unfolding find_elf
find_elf-cached path q none cache = elim (Bool-cases (bytes_eq path q)) [
  | inl e ↦ rw e refl
  | inr e ↦ rw e refl
]
find_elf-cached path q (some elf) cache = elim (Bool-cases (bytes_eq path q)) [
  | inl e ↦ rw e refl
  | inr e ↦ rw e refl
]

or_else-none : (x : Option (List ℕ)) → or_else x none ≡ x
or_else-none none = refl
or_else-none (some elf) = refl

read_once :
    (file old : Option (List ℕ)) (b : Bool)
    → or_else (if contains_key old then old else or_else file old) (file_if b file)
      ≡ or_else old file
read_once file (some elf) b = refl
read_once (some elf) none b = refl
read_once none none true = refl
read_once none none false = refl

-- The cache after one path.
next_cache :
    (files : List ℕ → Option (List ℕ)) (path q : List ℕ) (cache : List (List ℕ × List ℕ))
    → find_elf q
        (if contains_key (find_elf path cache) then cache else cached path (files path) cache)
      ≡ (if contains_key (find_elf path cache)
          then find_elf q cache
          else or_else (file_if (bytes_eq path q) (files path)) (find_elf q cache))
next_cache files path q cache = elim (Bool-cases (contains_key (find_elf path cache))) [
  | inl there ↦ rw there refl
  | inr missing ↦ rw missing (find_elf-cached path q (files path) cache)
]

find_elf-preload :
    (files : List ℕ → Option (List ℕ)) (paths : List (List ℕ)) (q : List ℕ)
    (cache : List (List ℕ × List ℕ))
    → find_elf q (preload_paths files paths cache)
      ≡ or_else (find_elf q cache) (file_if (is_listed q paths) (files q))
unfolding preload_paths
find_elf-preload files [] q cache = sym (or_else-none (find_elf q cache))
find_elf-preload files (path ∷ paths) q cache =
    let c = if contains_key (find_elf path cache) then cache else cached path (files path) cache in
    let rest = find_elf-preload files paths q c in
    let next = next_cache files path q cache in
    elim (Bool-cases (bytes_eq path q)) [
      | inl same ↦
          let e : path ≡ q = (bytes_eq_iff path q).0 same in
          let mine : find_elf q c ≡ (
              if contains_key (find_elf q cache)
              then find_elf q cache
              else or_else (files q) (find_elf q cache)) =
            next ∙ rw (same, e) refl in
          rest
          ∙ ap (λ x. or_else x (file_if (is_listed q paths) (files q))) mine
          ∙ read_once (files q) (find_elf q cache) (is_listed q paths)
          ∙ rw same refl
      | inr other ↦
          let kept : find_elf q c ≡ find_elf q cache =
            next ∙ rw other (either (contains_key (find_elf path cache)) (find_elf q cache)) in
          rest ∙ ap (λ x. or_else x (file_if (is_listed q paths) (files q))) kept ∙ rw other refl
    ]
  where
    either : (b : Bool) (x : Option (List ℕ)) → (if b then x else x) ≡ x
    either true x = refl
    either false x = refl

abbrev pub utf8_file : Option (List ℕ) → Bool
utf8_file none = false
utf8_file (some cfg) = is_utf8 cfg

-- If the boot configuration can be read and is UTF-8, the preload finds a program under a path
-- exactly if the path is one of the four of the bootstrap set and the file system has it, with the
-- bytes that it has there, and it succeeds exactly if there is a program for `/boot/init`.
-- Otherwise it fails and leaves everything as it was.
pub preload_boot_assets_lem :
    (files : List ℕ → Option (List ℕ)) (a : Assets) (q : List ℕ)
    → let (done, b) = preload_boot_assets files a in
      ((utf8_file (files boot_toml) ≡ true)
        × (get_preloaded_elf q b ≡ file_if (is_listed q bootstrap_paths) (files q))
        × (done ≡ contains_key (files boot_init))
        × (some b.boot_cfg ≡ files boot_toml))
      ⊎ ((utf8_file (files boot_toml) ≡ false) × (done ≡ false) × (b ≡ a))
unfolding preload_boot_assets bytes_eq find_elf
preload_boot_assets_lem files a q = go (files boot_toml)
  where
    go :
        (cfg : Option (List ℕ))
        → ((utf8_file cfg ≡ true)
            × (get_preloaded_elf q (preload_cfg files cfg a).1
                ≡ file_if (is_listed q bootstrap_paths) (files q))
            × ((preload_cfg files cfg a).0 ≡ contains_key (files boot_init))
            × (some (preload_cfg files cfg a).1.boot_cfg ≡ cfg))
          ⊎ ((utf8_file cfg ≡ false)
              × ((preload_cfg files cfg a).0 ≡ false)
              × ((preload_cfg files cfg a).1 ≡ a))
    go none = inr (refl, refl, refl)
    go (some cfg) = elim (Bool-cases (is_utf8 cfg)) [
      | inr bad ↦ rw bad (inr (refl, refl, refl))
      | inl good ↦ rw good (
          inl (
            refl,
            find_elf-preload files bootstrap_paths q [],
            ap contains_key (find_elf-preload files bootstrap_paths boot_init []),
            refl,
          ))
    ]
