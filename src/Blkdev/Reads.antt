-- ===== src/Blkdev/Reads.antt =====
-- Reads, and a read of what was written.
use uart_tsi.Base.{
  ℕ, ◌+◌, ◌*◌, ◌^◌, ◌≤◌, ◌<◌, ◌≡◌, ap, sym, ◌∙◌, Bool-cases, inl, inr, true, false, List, [], ◌∷◌,
  ◌++◌, map, arith, ltb, if◌then◌else◌, done, stop, ◌>>=◌, aborted,
}
use mathlib.Core.Path.{ap₂}
use uart_tsi.Base.Memory.{bytes_at, bytes_at-overlay}
use uart_tsi.Blkdev.{
  Request, Data, Block, do_read, in_order, run_data, run_round, run_requests, send_request,
}
use uart_tsi.Blkdev.Transfer.{IsDevice, IsWrite, write_lem, in_order-true}

-- The sectors that `in_order` lets through, when the sum does not wrap.
in_order-bound :
    (b : Block) (req : Request)
    → req.offset + req.len < 2 ^ 32
    → in_order b req ≡ true
    → req.offset + req.len ≤ b.nsectors
in_order-bound b req n h = ground arith

-- On a device whose sectors lie in its file, a read whose sector range does not wrap either fails
-- the tests of its parameters and aborts, or appends one response a beat, with the request's tag
-- and the file's beats in order: `fread` never comes short.
pub do_read_lem :
    (b : Block) (req : Request)
    → b.nsectors * 512 ≤ b.file.bytes
    → req.offset + req.len < 2 ^ 32
    → do_read req b ≡ (
        if in_order b req
        then done (record b {
          responses =
              b.responses
              ++ map
                  (λ v. record { beat = v; tag = req.tag })
                  (bytes_at b.file.beats (req.offset * 64) (req.len * 64));
        })
        else stop aborted)
unfolding do_read
do_read_lem b req f n = elim (Bool-cases (in_order b req)) [
  | inl e ↦
      let bound = in_order-bound b req n e in
      let enough : ltb b.file.bytes (req.offset * 512 + req.len * 512) ≡ false = ground arith in
      rw (e, enough)
  | inr e ↦ rw e
]

abbrev pub read_of : ℕ → ℕ → ℕ → Request
read_of offset len tag = record { write = false; offset = offset; len = len; tag = tag }

-- A read of sectors that the device has.
pub record IsRead (b : Block) (offset len tag : ℕ) : Type 0 where
  pub in_device : offset + len ≤ b.nsectors
  pub some_len : 0 < len
  pub max_len : len ≤ 16
  pub tag_lt : tag < b.ntags

-- What the file holds there, a response a beat.
abbrev pub answers : ℕ → List ℕ → List Data
answers tag vs = map (λ v. record { beat = v; tag = tag }) vs

run_round-one :
    (b b₁ : Block) (offset len tag : ℕ)
    → b.requests ≡ read_of offset len tag ∷ []
    → do_read (read_of offset len tag) b ≡ done b₁
    → b₁.req_data ≡ []
    → run_round b ≡ done (record b₁ { requests = []; req_data = [] })
unfolding run_round run_requests run_data
run_round-one b b₁ offset len tag q e d =
    ap (λ (l : List Request). run_requests l b >>= λ b'. run_data b'.req_data b') q ∙ rw (e, d)

-- On a device with nothing queued, with a tracker a tag and its sectors in its file, one round
-- after a read request of 1 to 16 sectors of the device under one of its tags returns: the
-- file's beats of those sectors are appended to the responses, in order and under the request's
-- tag, and nothing else changes.
pub read_lem :
    (b : Block) (offset len tag : ℕ)
    → IsDevice b
    → IsRead b offset len tag
    → b.requests ≡ []
    → b.req_data ≡ []
    → run_round (send_request (read_of offset len tag) b)
      ≡ done (record b {
        requests = [];
        req_data = [];
        responses = b.responses ++ answers tag (bytes_at b.file.beats (offset * 64) (len * 64));
      })
unfolding send_request
read_lem b offset len tag d r q0 d0 =
    let req : Request = read_of offset len tag in
    let b₁ : Block = send_request req b in
    let order : in_order b₁ req ≡ true =
      in_order-true b₁ req r.in_device d.sectors r.some_len r.max_len r.tag_lt in
    let b₂ : Block = record b₁ {
      responses = b.responses ++ answers tag (bytes_at b.file.beats (offset * 64) (len * 64));
    } in
    let e : do_read req b₁ ≡ done b₂ =
      do_read_lem b₁ req d.in_file (omega (arith, r.in_device, d.sectors)) ∙ rw order in
    run_round-one b₁ b₂ offset len tag (ap (λ (l : List Request). l ++ req ∷ []) q0) e d0

-- On a device with a tracker a tag and its sectors in its file, a round that finds a write of
-- `vs` and a round after a read of the same sectors under any tag both return, and the responses
-- that they append are the acknowledgement of the write and then exactly `vs` under the read's
-- tag.
pub write_read :
    (b : Block) (offset len tag tag' : ℕ) (vs : List ℕ)
    → IsDevice b
    → IsWrite b offset len tag vs
    → tag' < b.ntags
    → (b₁ : Block) × (b₂ : Block) × (run_round b ≡ done b₁)
      × (run_round (send_request (read_of offset len tag') b₁) ≡ done b₂)
      × (b₂.responses ≡ (b.responses ++ record { beat = 0; tag = tag } ∷ []) ++ answers tag' vs)
write_read b offset len tag tag' vs d w lt =
    let (b₁, run, resp, beats, bytes, q0, d0, secs, tags, trackers) =
      write_lem b offset len tag vs d w in
    let d₁ : IsDevice b₁ = record {
      trackers = trackers ∙ d.trackers ∙ sym tags;
      sectors = omega (arith, secs, d.sectors);
      in_file = ground (arith, secs, bytes, d.in_file);
    } in
    let r : IsRead b₁ offset len tag' = record {
      in_device = omega (arith, secs, w.in_device);
      some_len = w.some_len;
      max_len = w.max_len;
      tag_lt = omega (arith, tags, lt);
    } in
    let held : bytes_at b₁.file.beats (offset * 64) (len * 64) ≡ vs =
      ap₂ (λ (f : ℕ → ℕ) (n : ℕ). bytes_at f (offset * 64) n) beats (sym w.beats)
      ∙ bytes_at-overlay vs (offset * 64) b.file.beats in
    (
      b₁,
      record b₁ {
        requests = [];
        req_data = [];
        responses = b₁.responses ++ answers tag' (bytes_at b₁.file.beats (offset * 64) (len * 64));
      },
      run,
      read_lem b₁ offset len tag' d₁ r q0 d0,
      ap₂ (λ (l : List Data) (ws : List ℕ). l ++ answers tag' ws) resp held,
    )
