-- ===== src/Blkdev/Tests.antt =====
-- A device of two sectors with one tag, and a sector written to it and read back.
use uart_tsi.Base.{
  inr, ℕ, ◌*◌, ◌≡◌, refl, true, some, List, [], ◌∷◌, replicate, arith, done, stop, undefined,
  length,
}
use uart_tsi.Base.Memory.{bytes_at, overlay}
use uart_tsi.Blkdev.{
  File, Block, Inputs, construct, no_tracker, tick, run_round, run_data, can_accept, do_write,
  do_write_at, armed, send_request, run_requests,
}
use uart_tsi.Blkdev.Transfer.{IsDevice, IsWrite, beats_for, write_lem}
use uart_tsi.Blkdev.Reads.{read_of, answers, read_lem, write_read}
use uart_tsi.Blkdev.Trackers.{constructed, Sound, Reachable-Sound}

abbrev disk : File
disk = record { bytes = 1024; beats = λ i. 7 * i }

abbrev idle : Block
idle = record {
  ntags = 1;
  nsectors = 2;
  file = disk;
  requests = [];
  req_data = [];
  responses = [];
  write_trackers = no_tracker ∷ [];
}

idle_made : construct (some disk) 1 ≡ done idle
unfolding construct
idle_made = refl

idle-IsDevice : IsDevice idle
idle-IsDevice = record { trackers = refl; sectors = omega arith; in_file = omega arith }

abbrev ones : List ℕ
ones = replicate 64 1

abbrev writing : Block
writing = record idle {
  requests = record { write = true; offset = 1; len = 1; tag = 0 } ∷ [];
  req_data = beats_for 0 ones;
}

writing-IsDevice : IsDevice writing
writing-IsDevice = record { trackers = refl; sectors = omega arith; in_file = omega arith }

writing-IsWrite : IsWrite writing 1 1 0 ones
writing-IsWrite = record {
  requests = refl;
  req_data = refl;
  in_device = omega arith;
  some_len = omega arith;
  max_len = omega arith;
  tag_lt = omega arith;
  beats = refl;
}

write_lem_example :
    (b' : Block) × (run_round writing ≡ done b')
    × (b'.responses ≡ record { beat = 0; tag = 0 } ∷ [])
    × (b'.file.beats ≡ overlay 64 ones disk.beats)
    × (b'.file.bytes ≡ 1024)
    × (b'.requests ≡ [])
    × (b'.req_data ≡ [])
    × (b'.nsectors ≡ 2)
    × (b'.ntags ≡ 1)
    × (length b'.write_trackers ≡ 1)
write_lem_example = write_lem writing 1 1 0 ones writing-IsDevice writing-IsWrite

write_read_example :
    (b₁ : Block) × (b₂ : Block) × (run_round writing ≡ done b₁)
    × (run_round (send_request (read_of 1 1 0) b₁) ≡ done b₂)
    × (b₂.responses ≡ record { beat = 0; tag = 0 } ∷ answers 0 ones)
write_read_example = write_read writing 1 1 0 0 ones writing-IsDevice writing-IsWrite (omega arith)

-- The responses of a read of the second sector.
read_lem_example :
    run_round (send_request (read_of 1 1 0) idle)
    ≡ done (record idle { responses = answers 0 (bytes_at disk.beats 64 64) })
read_lem_example =
    read_lem idle 1 1 0 idle-IsDevice
      (record {
        in_device = omega arith;
        some_len = omega arith;
        max_len = omega arith;
        tag_lt = omega arith;
      })
      refl refl

abbrev one_beat : Inputs
one_beat = record {
  req_valid = true;
  req = record { write = true; offset = 0; len = 1; tag = 0 };
  data_valid = true;
  data_bits = record { beat = 5; tag = 0 };
  resp_ready = true;
}

Reachable-Sound_example : Sound 1 (run_round (tick one_beat idle))
Reachable-Sound_example =
    Reachable-Sound {file = some disk} one_beat (constructed idle_made) (λ e. inr (omega arith))
      (λ e. omega arith)

-- A beat with a tag that no tracker has is looked up past the end of the vector.
stray_beat :
    run_round (record idle { req_data = record { beat = 5; tag = 1 } ∷ [] }) ≡ stop undefined
unfolding run_round run_data run_requests can_accept
stray_beat = refl

-- The sum of the offset and the length wraps: a write far past the device is taken.
wrapped_write :
    do_write (record { write = true; offset = 0xffffffff; len = 2; tag = 0 }) idle
    ≡ done (record idle {
      write_trackers = record no_tracker { offset = 0xffffffff * 512; size = 128 } ∷ [];
    })
unfolding do_write do_write_at armed
wrapped_write = refl

-- A write request with a tag that no tracker has does not get as far as the test of its tag.
stray_write : do_write (record { write = true; offset = 0; len = 1; tag = 1 }) idle ≡ stop undefined
unfolding do_write do_write_at
stray_write = refl
