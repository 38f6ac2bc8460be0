-- ===== src/Serial/Tests.antt =====
-- A run of the serial service at a concrete input.
use mene_os.Base.{◌^◌, ◌-◌, ◌∷◌, [], refl, some, arith}
use mene_os.Ulib.World.{World}
use mene_os.Serial.Start.{Uart, rounds}
use mene_os.Serial.Start.Lines.{Printed, heard, rounds-Printed}

-- Two messages, the second with a line break, and a receive without one in between.
abbrev kernel : World
kernel = record {
  recvs =
      record { ret = 2; bytes = b'h' ∷ b'i' ∷ 0 ∷ []; meta0 = 1; meta1 = 0 }
      ∷ record { ret = 2 ^ 64 - 11; bytes = []; meta0 = 0; meta1 = 0 }
      ∷ record { ret = 3; bytes = b'a' ∷ 10 ∷ b'b' ∷ []; meta0 = 1; meta1 = 0 }
      ∷ [];
  send_rets = [];
  spawn_rets = [];
  sent = [];
  spawned = [];
  spawned_elfs = [];
}

abbrev uart : Uart
uart = record { world = kernel; uptimes = 1500 ∷ 2000 ∷ []; written = some [] }

rounds-Printed_example : Printed [] (heard 3 kernel) (rounds 3 uart).written
rounds-Printed_example = rounds-Printed 3 uart [] (omega arith, (omega arith, tt)) refl
