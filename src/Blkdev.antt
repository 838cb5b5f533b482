-- ===== src/Blkdev.antt =====
-- csrc/blkdev.h and csrc/blkdev.cc: a block device that serves sector requests from a file. The file
-- is its size in bytes and a function from 8-byte positions to beats; the trackers are a vector.
pub mod Sim
pub mod Reads
pub mod Trackers
pub mod Transfer
mod Tests
use uart_tsi.Base.{
  ℕ, zero, suc, ◌+◌, ◌-◌, ◌*◌, ◌/◌, ◌%◌, ◌^◌, Bool, true, false, ◌&&◌, not, Option, none, some,
  List, [], ◌∷◌, ◌++◌, map, if◌then◌else◌, ltb, leb, ◌==◌, add32, length, get_elem?, set, is_empty,
  replicate, Run, done, stop, aborted, undefined, ◌>>=◌,
}
use uart_tsi.Base.Memory.{bytes_at, overlay}

-- `SECTOR_BEATS` and `MAX_REQ_LEN`
abbrev pub sector_size : ℕ
sector_size = 512

abbrev pub sector_beats : ℕ
sector_beats = 64

abbrev pub max_req_len : ℕ
max_req_len = 16

pub record Request : Type 0 where
  pub write : Bool
  pub offset : ℕ
  pub len : ℕ
  pub tag : ℕ

pub record Data : Type 0 where
  pub beat : ℕ
  pub tag : ℕ

-- `data` is an array of `MAX_REQ_LEN * SECTOR_BEATS` beats.
pub record Tracker : Type 0 where
  pub offset : ℕ
  pub count : ℕ
  pub size : ℕ
  pub buffer : ℕ → ℕ

pub record File : Type 0 where
  pub bytes : ℕ
  pub beats : ℕ → ℕ

pub record Block : Type 0 where
  pub ntags : ℕ
  pub nsectors : ℕ
  pub file : File
  pub requests : List Request
  pub req_data : List Data
  pub responses : List Data
  pub write_trackers : List Tracker

-- `resize` fills with zeros.
abbrev pub no_tracker : Tracker
no_tracker = record { offset = 0; count = 0; size = 0; buffer = λ i. 0 }

-- `none`: the file cannot be opened or measured.
unfoldable pub construct : Option File → ℕ → Run Block
construct none ntags = stop aborted
construct (some f) ntags = done (record {
  ntags = ntags;
  nsectors = f.bytes / sector_size % 2 ^ 32;
  file = f;
  requests = [];
  req_data = [];
  responses = [];
  write_trackers = replicate ntags no_tracker;
})

-- The tests that `do_read` and `do_write` share; the sum is of `uint32_t`.
abbrev pub in_order : Block → Request → Bool
in_order b req =
    leb (add32 req.offset req.len) b.nsectors
    && not (req.len == 0)
    && leb req.len max_req_len
    && ltb req.tag b.ntags

-- `fread` gives fewer sectors than asked for where the file ends.
unfoldable pub do_read : Request → Block → Run Block
do_read req b =
    let nbeats = req.len * sector_beats in
    let beats = bytes_at b.file.beats (req.offset * sector_beats) nbeats in
    if not (in_order b req)
    then stop aborted
    else if ltb b.file.bytes (req.offset * sector_size + req.len * sector_size)
    then stop aborted
    else done (record b {
      responses = b.responses ++ map (λ v. record { beat = v; tag = req.tag }) beats;
    })

-- The tracker's buffer keeps what it held.
unfoldable pub armed : Request → Tracker → Tracker
armed req t = record t {
  offset = req.offset * sector_size;
  count = 0;
  size = req.len * sector_beats;
}

-- `write_trackers[req.tag]` comes before the tests: past the end of the vector it is undefined
-- behaviour, whatever they say.
unfoldable pub do_write_at : Request → Option Tracker → Block → Run Block
unfolding armed
do_write_at req none b = stop undefined
do_write_at req (some t) b =
    if not (in_order b req)
    then stop aborted
    else done (record b { write_trackers = set b.write_trackers req.tag (armed req t) })

unfoldable pub do_write : Request → Block → Run Block
unfolding do_write_at
do_write req b = do_write_at req (get_elem? b.write_trackers req.tag) b

-- `none` is an element past the end of the vector.
unfoldable pub can_accept : Option Tracker → Run Bool
can_accept none = stop undefined
can_accept (some t) = done (ltb 0 t.size)

-- `tracker.data[tracker.count] = data.data; tracker.count++`
abbrev pub filled : ℕ → Tracker → Tracker
filled v t = record t { buffer = λ i. if i == t.count then v else t.buffer i; count = t.count + 1 }

-- `fwrite` past the end makes the file longer.
unfoldable pub write_back : Tracker → File → File
write_back t f =
    let end = t.offset + t.count * 8 in
    record {
      bytes = if ltb f.bytes end then end else f.bytes;
      beats = overlay (t.offset / 8) (bytes_at t.buffer 0 t.count) f.beats;
    }

unfoldable pub store_beat : Data → Tracker → Block → Run Block
unfolding write_back
store_beat d t b =
    let t' = filled d.beat t in
    let partial = done (record b { write_trackers = set b.write_trackers d.tag t' }) in
    let whole = done (record b {
      file = write_back t' b.file;
      write_trackers = set b.write_trackers d.tag (record t' { offset = 0; count = 0; size = 0 });
      responses = b.responses ++ record { beat = 0; tag = d.tag } ∷ [];
    }) in
    if leb (max_req_len * sector_beats) t.count
    then stop undefined
    else if ltb t'.count t'.size
    then partial
    else whole

unfoldable pub handle_data : Data → Option Tracker → Block → Run Block
unfolding store_beat
handle_data d none b = stop undefined
handle_data d (some t) b = store_beat d t b

-- `while (!requests.empty())`
unfoldable pub run_requests : List Request → Block → Run Block
run_requests [] b = done (record b { requests = [] })
run_requests (req ∷ reqs) b = do
  b' ← (if req.write then do_write req b else do_read req b)
  run_requests reqs b'

-- `while (!req_data.empty() && can_accept(req_data.front()))`
unfoldable pub run_data : List Data → Block → Run Block
unfolding can_accept handle_data
run_data [] b = done (record b { req_data = [] })
run_data (d ∷ ds) b = do
  accepted ← can_accept (get_elem? b.write_trackers d.tag)
  let next = (do b' ← handle_data d (get_elem? b.write_trackers d.tag) b; run_data ds b')
  if accepted then next else done (record b { req_data = d ∷ ds })

-- One round of `run`, from one `switch_to` to the next.
unfoldable pub run_round : Block → Run Block
unfolding run_requests run_data
run_round b = do b' ← run_requests b.requests b; run_data b'.req_data b'

unfoldable pub send_request : Request → Block → Block
send_request req b = record b { requests = b.requests ++ req ∷ [] }

unfoldable pub send_data : Data → Block → Block
send_data d b = record b { req_data = b.req_data ++ d ∷ [] }

-- `front` of an empty queue is undefined behaviour.
unfoldable pub recv_response : List Data → Block → Run (Data × Block)
recv_response [] b = stop undefined
recv_response (r ∷ rs) b = done (r, record b { responses = rs })

abbrev pub rest_of : List Data → List Data
rest_of [] = []
rest_of (r ∷ rs) = rs

-- The inputs of `tick`.
pub record Inputs : Type 0 where
  pub req_valid : Bool
  pub req : Request
  pub data_valid : Bool
  pub data_bits : Data
  pub resp_ready : Bool

unfoldable pub tick : Inputs → Block → Block
unfolding send_request send_data
tick i b =
    let b₁ = if i.req_valid then send_request i.req b else b in
    let b₂ = if i.data_valid then send_data i.data_bits b₁ else b₁ in
    if not (is_empty b₂.responses) && i.resp_ready
    then record b₂ { responses = rest_of b₂.responses }
    else b₂
