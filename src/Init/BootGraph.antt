-- ===== src/Init/BootGraph.antt =====
-- apps/init/src/main.rs: `parse_boot_graph`, which reads the services of /boot/boot.toml. A `&str`
-- is its bytes; the places where a `&str` is cut are next to ASCII characters.
pub mod Names
pub mod Dependencies
pub mod Valid
pub mod Boot
use mene_os.Base.{
  ℕ, zero, suc, ◌+◌, ◌-◌, min, Bool, true, false, not, ◌&&◌, ◌||◌, List, [], ◌∷◌, Option, none,
  some, length, take, drop, slice, get_or, set, replicate, copy_front, ltb, leb, ◌==◌,
  if◌then◌else◌, bytes_eq,
}
use mene_os.Base.Bits.{Mask, set_bit}
use mene_os.Base.Text.{find_byte, starts_with, ends_with, trim, split, lines}
use mene_os.Init.Registry.{max_services}
use mene_os.Init.Services.{
  RestartPolicy, always, on_failure, one_shot, HealthProbe, no_probe, fs_ping, blk_ping, LaunchMode,
  spawn, fs_exec_mode, ServiceSpec, empty_spec, max_deps, name_bytes,
}

abbrev before_comment : List ℕ → Option ℕ → List ℕ
before_comment raw none = raw
before_comment raw (some pos) = take pos raw

unfoldable pub clean_line : List ℕ → List ℕ
clean_line raw = trim (before_comment raw (find_byte b'#' raw))

-- A value without the quotes around it.
abbrev pub unquote : List ℕ → List ℕ
unquote v =
    if leb 2 (length v) && get_or v 0 0 == b'"' && get_or v (length v - 1) 0 == b'"'
    then slice 1 (length v - 2) v
    else v

abbrev pub key_value : List ℕ → Option ℕ → Option (List ℕ × List ℕ)
key_value line none = none
key_value line (some idx) = some (trim (take idx line), unquote (trim (drop (idx + 1) line)))

unfoldable pub parse_kv : List ℕ → Option (List ℕ × List ℕ)
parse_kv line = key_value line (find_byte b'=' line)

-- b"[service."
abbrev pub section_start : List ℕ
section_start = b'[' ∷ b's' ∷ b'e' ∷ b'r' ∷ b'v' ∷ b'i' ∷ b'c' ∷ b'e' ∷ b'.' ∷ []

unfoldable pub parse_service_section_name : List ℕ → Option (List ℕ)
parse_service_section_name line =
    if not (starts_with section_start line) || not (ends_with b']' line)
    then none
    else (let name = slice 9 (length line - 1 - 9) line in
        if length name == 0 then none else some name)

-- The number of bytes that are copied, and `dst` with them at its front.
abbrev pub copy_bytes : List ℕ → List ℕ → ℕ × List ℕ
copy_bytes dst src = let n = min (length dst) (length src) in (n, copy_front (take n src) dst)

-- One round of the loop of `parse_dep_list`.
abbrev pub add_dep : ServiceSpec → List ℕ → ServiceSpec
add_dep spec dep =
    let i = spec.dep_count in
    let (n, name) = copy_bytes (get_or spec.dep_names i []) dep in
    if length dep == 0 || leb max_deps i then spec else record spec {
      dep_names = set spec.dep_names i name;
      dep_name_lens = set spec.dep_name_lens i n;
      dep_count = i + 1;
    }

unfoldable pub add_deps : ServiceSpec → List (List ℕ) → ServiceSpec
add_deps spec [] = spec
add_deps spec (part ∷ parts) = add_deps (add_dep spec (trim part)) parts

unfoldable pub parse_dep_list : ServiceSpec → List ℕ → ServiceSpec
parse_dep_list spec value = add_deps (record spec { dep_count = 0 }) (split b',' value)

-- b"always", b"on-failure"
abbrev pub text_always : List ℕ
text_always = b'a' ∷ b'l' ∷ b'w' ∷ b'a' ∷ b'y' ∷ b's' ∷ []

abbrev pub text_on_failure : List ℕ
text_on_failure = b'o' ∷ b'n' ∷ b'-' ∷ b'f' ∷ b'a' ∷ b'i' ∷ b'l' ∷ b'u' ∷ b'r' ∷ b'e' ∷ []

unfoldable pub parse_policy : List ℕ → RestartPolicy
parse_policy value =
    if bytes_eq value text_always
    then always
    else if bytes_eq value text_on_failure
    then on_failure
    else one_shot

-- b"fs_ping", b"blk_ping"
abbrev pub text_fs_ping : List ℕ
text_fs_ping = b'f' ∷ b's' ∷ b'_' ∷ b'p' ∷ b'i' ∷ b'n' ∷ b'g' ∷ []

abbrev pub text_blk_ping : List ℕ
text_blk_ping = b'b' ∷ b'l' ∷ b'k' ∷ b'_' ∷ b'p' ∷ b'i' ∷ b'n' ∷ b'g' ∷ []

unfoldable pub parse_probe : List ℕ → HealthProbe
parse_probe value =
    if bytes_eq value text_fs_ping
    then fs_ping
    else if bytes_eq value text_blk_ping
    then blk_ping
    else no_probe

-- b"fs_exec"
abbrev pub text_fs_exec : List ℕ
text_fs_exec = b'f' ∷ b's' ∷ b'_' ∷ b'e' ∷ b'x' ∷ b'e' ∷ b'c' ∷ []

-- b"binary", b"depends_on", b"restart_policy", b"health_probe", b"launch"
abbrev pub key_binary : List ℕ
key_binary = b'b' ∷ b'i' ∷ b'n' ∷ b'a' ∷ b'r' ∷ b'y' ∷ []

abbrev pub key_depends_on : List ℕ
key_depends_on = b'd' ∷ b'e' ∷ b'p' ∷ b'e' ∷ b'n' ∷ b'd' ∷ b's' ∷ b'_' ∷ b'o' ∷ b'n' ∷ []

abbrev pub key_restart_policy : List ℕ
key_restart_policy =
    b'r' ∷ b'e' ∷ b's' ∷ b't' ∷ b'a' ∷ b'r' ∷ b't' ∷ b'_' ∷ b'p' ∷ b'o' ∷ b'l' ∷ b'i' ∷ b'c' ∷ b'y'
    ∷ []

abbrev pub key_health_probe : List ℕ
key_health_probe =
    b'h' ∷ b'e' ∷ b'a' ∷ b'l' ∷ b't' ∷ b'h' ∷ b'_' ∷ b'p' ∷ b'r' ∷ b'o' ∷ b'b' ∷ b'e' ∷ []

abbrev pub key_launch : List ℕ
key_launch = b'l' ∷ b'a' ∷ b'u' ∷ b'n' ∷ b'c' ∷ b'h' ∷ []

-- The arms of the match on a key.
unfoldable pub set_key : ServiceSpec → List ℕ → List ℕ → ServiceSpec
set_key cur k v =
    if bytes_eq k key_binary
    then (let (n, binary) = copy_bytes cur.binary v in
        record cur { binary = binary; binary_len = n })
    else if bytes_eq k key_depends_on
    then parse_dep_list cur v
    else if bytes_eq k key_restart_policy
    then record cur { restart_policy = parse_policy v }
    else if bytes_eq k key_health_probe
    then record cur { health_probe = parse_probe v }
    else if bytes_eq k key_launch
    then record cur { launch_mode = if bytes_eq v text_fs_exec then fs_exec_mode else spawn }
    else cur

-- The variables of `parse_boot_graph`.
pub record Parse : Type 0 where
  pub out : List ServiceSpec
  pub count : ℕ
  pub cur : ServiceSpec
  pub in_service : Bool

unfoldable pub finish_spec : Parse → Parse
finish_spec s =
    if not s.cur.valid || s.cur.name_len == 0 || s.cur.binary_len == 0 || leb max_services s.count
    then s
    else record s { out = set s.out s.count s.cur; count = s.count + 1 }

abbrev pub finish_current : Parse → Parse
finish_current s = if s.in_service then finish_spec s else s

-- The specification at the start of a section.
abbrev pub named_spec : List ℕ → ServiceSpec
named_spec name =
    let (n, bytes) = copy_bytes empty_spec.name name in
    record empty_spec { valid = true; name = bytes; name_len = n }

abbrev pub start_section : List ℕ → Parse → Parse
start_section name s = record (finish_current s) { cur = named_spec name; in_service = true }

abbrev pub set_current : Option (List ℕ × List ℕ) → Parse → Parse
set_current none s = s
set_current (some (k, v)) s = record s { cur = set_key s.cur k v }

-- One round of the loop on a line that is not empty, by what its section name is.
abbrev pub parse_line : List ℕ → Option (List ℕ) → Parse → Parse
parse_line line (some name) s = start_section name s
parse_line line none s = if s.in_service then set_current (parse_kv line) s else s

unfoldable pub parse_lines : List (List ℕ) → Parse → Parse
parse_lines [] s = s
parse_lines (raw ∷ raws) s =
    let line = clean_line raw in
    parse_lines raws
      (if length line == 0 then s else parse_line line (parse_service_section_name line) s)

-- The first of `n` specifications from `j` on whose name is `dname`, if any, is a bit of the mask.
unfoldable pub find_dep : List ServiceSpec → List ℕ → ℕ → ℕ → Mask → Mask
find_dep specs dname zero j mask = mask
find_dep specs dname (suc n) j mask =
    let rest = find_dep specs dname n (j + 1) mask in
    if bytes_eq (name_bytes (get_or specs j empty_spec)) dname then set_bit mask j else rest

abbrev pub dep_name : ServiceSpec → ℕ → List ℕ
dep_name spec di = take (get_or spec.dep_name_lens di 0) (get_or spec.dep_names di [])

-- The masks of the `n` dependencies from `di` on.
unfoldable pub find_deps : List ServiceSpec → ℕ → ServiceSpec → ℕ → ℕ → Mask → Mask
find_deps specs count spec zero di mask = mask
find_deps specs count spec (suc n) di mask =
    find_deps specs count spec n (di + 1) (find_dep specs (dep_name spec di) count 0 mask)

abbrev pub mask_of : List ServiceSpec → ℕ → ServiceSpec → Mask
mask_of specs count spec = find_deps specs count spec spec.dep_count 0 (replicate 32 false)

-- The outer loop, on the `n` specifications from `i` on.
unfoldable pub resolve_from : ℕ → ℕ → ℕ → List ServiceSpec → List ServiceSpec
resolve_from count zero i specs = specs
resolve_from count (suc n) i specs =
    let spec = get_or specs i empty_spec in
    resolve_from count n (i + 1) (set specs i (record spec { dep_mask = mask_of specs count spec }))

abbrev pub resolve_dep_mask : List ServiceSpec → ℕ → List ServiceSpec
resolve_dep_mask specs count = resolve_from count count 0 specs

abbrev pub begin_parse : List ServiceSpec → Parse
begin_parse out = record { out = out; count = 0; cur = empty_spec; in_service = false }

-- The specifications that are left in `out`, and their number.
unfoldable pub parse_boot_graph : List ℕ → List ServiceSpec → List ServiceSpec × ℕ
parse_boot_graph config out =
    let s = finish_current (parse_lines (lines config) (begin_parse out)) in
    (resolve_dep_mask s.out s.count, s.count)
