-- ===== src/Plusarg/Tests.antt =====
-- A file of a page with words of four bytes.
use uart_tsi.Base.{◌≡◌, refl, true, false, some, done, stop, undefined, arith}
use uart_tsi.Plusarg.{FileMem, construct, do_read, do_write, do_write-do_read, do_read_end}

abbrev page : FileMem
page = record {
  capacity_bytes = 8192;
  filesize = 4096;
  data_bytes = 4;
  writeable = false;
  mapped = 4096;
  mem = λ x. x;
}

page_made : construct (some (λ x. x)) 4096 false 8192 4 ≡ done page
unfolding construct
page_made = refl

do_read_end_instance : (do_read 4094 page ≡ stop undefined) × (do_read 4096 page ≡ done 0)
do_read_end_instance =
    do_read_end (λ x. x) 4096 8192 4 4094 (omega arith) (omega arith) (omega arith) (omega arith)
      (omega arith) page_made

do_write-do_read_example :
    (m' : FileMem) × (do_write 2 0xdeadbeef (record page { writeable = true }) ≡ done m')
    × (do_read 2 m' ≡ done 0xdeadbeef)
do_write-do_read_example =
    do_write-do_read 2 0xdeadbeef (record page { writeable = true }) refl (omega arith)
      (omega arith) (omega arith) (omega arith) (omega arith) (omega arith)
