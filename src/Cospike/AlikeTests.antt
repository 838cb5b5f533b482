-- ===== src/Cospike/AlikeTests.antt =====
-- A simulator that is its registers, restored from the file of one hart beside the hart itself.
use uart_tsi.Base.{refl, if◌then◌else◌, [], false, ◌==◌}
use uart_tsi.Dtm.Hart.{Hart, update}
use uart_tsi.Cospike.Core.{Core}
use uart_tsi.Cospike.Alike.{Regs, RegsLaws}

abbrev registers : Core Regs
registers = record {
  pc = λ s. s.pc;
  write_pc = λ a s. record s { pc = a };
  write_prv = λ p s. s;
  mip = λ s. 0;
  write_mip = λ m v s. s;
  write_xpr = λ n w s. record s { x = if n == 0 then s.x else update s.x n w };
  write_fpr = λ n w s. record s { f = update s.f n w };
  read_csr = λ n s. 0;
  write_csr = λ n w s. s;
  vector_length = λ s. 0;
  element_length = λ s. 0;
  write_vpr = λ a bs s. s;
  clear_waiting_for_interrupt = λ s. s;
  forget_reads = λ s. s;
  step = λ s. s;
  device_read = λ s. false;
  mem_reads = λ s. [];
  mem_writes = λ s. [];
  reg_writes = λ s. [];
}

registers-RegsLaws : RegsLaws registers
registers-RegsLaws = record {
  regs = λ s. s;
  pc_read = λ s. refl;
  pc_written = λ a s. refl;
  x_written = λ n w s. refl;
  f_written = λ n w s. refl;
  prv_written = λ p s. refl;
  csr_written = λ n w s. refl;
  v_written = λ a bs s. refl;
  woken = λ s. refl;
}

abbrev zeroes : Regs
zeroes = record { x = λ n. 0; f = λ n. 0; pc = 0 }
