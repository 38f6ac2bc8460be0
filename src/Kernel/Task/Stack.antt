-- ===== src/Kernel/Task/Stack.antt =====
-- The stack of a new program.
use mene_os.Base.{
  ℕ, ◌+◌, ◌*◌, ◌%◌, ◌^◌, ◌≡◌, ◌≤◌, ◌<◌, List, [], ◌∷◌, arith, length, take, to_le, length-append,
  length-take, length-to_le,
}
use mene_os.Kernel.Task.{argv0_bytes, argv0_addr, user_sp, stack_words, words_bytes, sub}

length-words_bytes : (ws : List ℕ) → length (words_bytes ws) ≡ 8 * length ws
unfolding words_bytes
length-words_bytes [] = omega arith
length-words_bytes (w ∷ ws) =
    omega
      (arith, length-append (to_le 8 w) (words_bytes ws), length-to_le 8 w, length-words_bytes ws)

-- For a stack of at least 256 bytes below `stack_top`: the stack pointer that
-- `init_linux_user_stack` returns is a multiple of 16; the words written there end at or before the
-- name, the name ends just at the top, and all of it lies in the 256 bytes.
pub init_stack-layout :
    (stack_top entry_point : ℕ) (argv0 : List ℕ)
    → 256 ≤ stack_top
    → stack_top < 2 ^ 64
    → let sp = user_sp stack_top argv0 in
      let ptr = argv0_addr stack_top argv0 in
      (sp % 16 ≡ 0)
      × (sp + length (words_bytes (stack_words ptr entry_point)) ≤ ptr)
      × (ptr + length (argv0_bytes argv0) ≡ stack_top)
      × (stack_top ≤ sp + 256)
init_stack-layout stack_top entry_point argv0 room top =
    let n = length-append (take 63 argv0) (0 ∷ []) in
    let k = length-take 63 argv0 in
    let raw = length-words_bytes (stack_words (argv0_addr stack_top argv0) entry_point) in
    let short : length (argv0_bytes argv0) ≤ 64 = omega (arith, n, k) in
    let at : argv0_addr stack_top argv0 + length (argv0_bytes argv0) ≡ stack_top =
      omega (arith, short, room, top) in
    let low : sub (argv0_addr stack_top argv0) 80 + 80 ≡ argv0_addr stack_top argv0 =
      omega (arith, at, short, room, top) in
    (omega arith, omega (arith, raw, low), at, omega (arith, at, low, short))
