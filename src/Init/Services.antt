-- ===== src/Init/Services.antt =====
-- apps/init/src/main.rs: the specification and the run-time state of a service, how it is
-- started (`spawn_service`, `fs_exec`) and how it is probed (`probe_service`).
use mene_os.Base.{
  ℕ, Bool, true, false, not, ◌||◌, List, [], ◌∷◌, ◌++◌, Option, none, some, length, take, replicate,
  ltb, ◌==◌, if◌then◌else◌, to_le,
}
use mene_os.Base.Bits.{Mask}
use mene_os.Base.Utf8.{is_utf8}
use mene_os.Abi.Blk
use mene_os.Abi.Fs
use mene_os.Abi.Handle.{dynamic, local_endpoint, fs_endpoint}
use mene_os.Ulib.World.{World}
use mene_os.Ulib.Ipc.{sys_spawn, sys_ipc_send_checked}
use mene_os.Init.Registry.{max_name, lookup}
use mene_os.Init.ControlPlane.{Plane, ok_text, wait_for_reply_or_control}

abbrev pub max_deps : ℕ
max_deps = 4

abbrev pub max_binary : ℕ
max_binary = Fs.max_path

pub data RestartPolicy : Type 0 where
  always on_failure one_shot : RestartPolicy

pub data HealthProbe : Type 0 where
  no_probe fs_ping blk_ping : HealthProbe

pub data LaunchMode : Type 0 where
  spawn fs_exec_mode : LaunchMode

pub record ServiceSpec : Type 0 where
  pub valid : Bool
  pub name_len : ℕ
  pub name : List ℕ
  pub binary_len : ℕ
  pub binary : List ℕ
  pub dep_count : ℕ
  pub dep_name_lens : List ℕ
  pub dep_names : List (List ℕ)
  pub dep_mask : Mask
  pub restart_policy : RestartPolicy
  pub health_probe : HealthProbe
  pub launch_mode : LaunchMode

-- ServiceSpec::empty
abbrev pub empty_spec : ServiceSpec
empty_spec = record {
  valid = false;
  name_len = 0;
  name = replicate max_name 0;
  binary_len = 0;
  binary = replicate max_binary 0;
  dep_count = 0;
  dep_name_lens = replicate max_deps 0;
  dep_names = replicate max_deps (replicate max_name 0);
  dep_mask = replicate 32 false;
  restart_policy = one_shot;
  health_probe = no_probe;
  launch_mode = spawn;
}

abbrev pub name_bytes : ServiceSpec → List ℕ
name_bytes spec = take spec.name_len spec.name

abbrev pub binary_str : ServiceSpec → Option (List ℕ)
binary_str spec =
    let bytes = take spec.binary_len spec.binary in if is_utf8 bytes then some bytes else none

pub record ServiceRuntime : Type 0 where
  pub started : Bool
  pub attempted : Bool
  pub healthy_once : Bool
  pub probe_fail_streak : ℕ
  pub next_probe_tick : ℕ
  pub next_retry_tick : ℕ

-- ServiceRuntime::empty
abbrev pub empty_runtime : ServiceRuntime
empty_runtime = record {
  started = false;
  attempted = false;
  healthy_once = false;
  probe_fail_streak = 0;
  next_probe_tick = 0;
  next_retry_tick = 0;
}

abbrev pub pong : List ℕ
pong = b'P' ∷ b'O' ∷ b'N' ∷ b'G' ∷ []

-- Go on only if the message was sent.
abbrev pub if_sent : Plane → Bool × World → (Plane → Bool × Plane) → Bool × Plane
if_sent s (false, w) next = (false, record s { world = w })
if_sent s (true, w) next = next (record s { world = w })

unfoldable pub send_ping_and_wait : ℕ → List ℕ → List ℕ → Plane → Bool × Plane
send_ping_and_wait target req expected s =
    if_sent s (sys_ipc_send_checked (dynamic target) req (some local_endpoint) s.world)
      (wait_for_reply_or_control expected 20)

abbrev pub exec_request : List ℕ → List ℕ
exec_request p = to_le 2 Fs.req_exec ++ (to_le 2 (length p) ++ p)

unfoldable pub fs_exec : List ℕ → Plane → Bool × Plane
fs_exec path s =
    if length path == 0 || ltb Fs.max_path (length path)
    then (false, s)
    else if_sent s
        (sys_ipc_send_checked fs_endpoint (exec_request path) (some local_endpoint) s.world)
        (wait_for_reply_or_control ok_text 250)

abbrev pub ping_found : ℕ → Option ℕ → Plane → Bool × Plane
ping_found opcode none s = (false, s)
ping_found opcode (some h) s = send_ping_and_wait h (to_le 2 opcode) pong s

unfoldable pub probe_service : ServiceSpec → Plane → Bool × Plane
probe_service spec s = elim spec.health_probe [
  | no_probe ↦ (true, s)
  | fs_ping ↦ ping_found Fs.req_ping (lookup (name_bytes spec) s.registry) s
  | blk_ping ↦ ping_found Blk.req_ping (lookup (name_bytes spec) s.registry) s
]

abbrev pub spawn_path : List ℕ → Plane → Bool × Plane
spawn_path path s =
    let (pid, w) = sys_spawn path s.world in (not (pid == 0), record s { world = w })

abbrev pub spawn_binary : LaunchMode → Option (List ℕ) → Plane → Bool × Plane
spawn_binary mode none s = (false, s)
spawn_binary spawn (some path) s = spawn_path path s
spawn_binary fs_exec_mode (some path) s = fs_exec path s

unfoldable pub spawn_service : ServiceSpec → Plane → Bool × Plane
spawn_service spec s = spawn_binary spec.launch_mode (binary_str spec) s
