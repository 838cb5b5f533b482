-- ===== src/Blkdev/Transfer.antt =====
-- A whole write: the request, its beats, and what the file then holds.
use uart_tsi.Base.{
  ℕ, ◌+◌, ◌*◌, ◌/◌, ◌^◌, ◌≤◌, ◌<◌, ◌≡◌, refl, ap, ◌∙◌, true, false, some, List, [], ◌∷◌, ◌++◌,
  arith, length, get_elem?, set, length-set, get_elem?-set_self, set-set_self, get_elem?-some,
  append_assoc, leb, ltb, done,
}
use mathlib.Core.Path.{ap₂}
use native.Mathlib.Numerals.{add-one}
use uart_tsi.Base.Memory.{bytes_at, overlay, bytes_at-suc, bytes_at-congr}
use uart_tsi.Blkdev.{
  Request, Data, Tracker, Block, do_write, do_write_at, armed, can_accept, handle_data, store_beat,
  write_back, filled, run_data, run_round, run_requests, in_order,
}

abbrev pub beats_for : ℕ → List ℕ → List Data
beats_for tag [] = []
beats_for tag (v ∷ vs) = record { beat = v; tag = tag } ∷ beats_for tag vs

-- The tracker holds `pre`.
abbrev Holds : Tracker → List ℕ → Type 0
Holds t pre = bytes_at t.buffer 0 t.count ≡ pre

filled-Holds :
    (v : ℕ) (t : Tracker) (pre : List ℕ) → Holds t pre → Holds (filled v t) (pre ++ v ∷ [])
filled-Holds v t pre h =
    ap (λ (n : ℕ). bytes_at f 0 n) (add-one t.count)
    ∙ bytes_at-suc t.count 0 f
    ∙ ap₂ (λ (l : List ℕ) (x : ℕ). l ++ x ∷ [])
        (bytes_at-congr t.count 0 f t.buffer (λ x lo hi. ground arith) ∙ h) (ground arith)
  where
    f : ℕ → ℕ
    f = (filled v t).buffer

-- A tracker with `size` beats wanted, of which `pre` are in.
record IsFilling (t : Tracker) (pre : List ℕ) : Type 0 where
  holds : Holds t pre
  room : t.size ≤ 1024
  open_ : 0 < t.size

-- One beat into a tracker that wants it: short of the last, and the last.
run_data-partial :
    (v tag : ℕ) (ds : List Data) (t : Tracker) (b : Block)
    → get_elem? b.write_trackers tag ≡ some t
    → t.size ≤ 1024
    → t.count + 1 < t.size
    → run_data (record { beat = v; tag = tag } ∷ ds) b
      ≡ run_data ds (record b { write_trackers = set b.write_trackers tag (filled v t) })
unfolding run_data can_accept handle_data store_beat
run_data-partial v tag ds t b e room lt =
    let lt0 : ltb 0 t.size ≡ true = ground arith in
    let ok : leb 1024 t.count ≡ false = ground arith in
    let lt1 : ltb (t.count + 1) t.size ≡ true = ground arith in rw (e, lt0, ok, lt1)

run_data-last :
    (v tag : ℕ) (ds : List Data) (t : Tracker) (b : Block)
    → get_elem? b.write_trackers tag ≡ some t
    → t.size ≤ 1024
    → t.count + 1 ≡ t.size
    → run_data (record { beat = v; tag = tag } ∷ ds) b
      ≡ run_data ds (record b {
        file = write_back (filled v t) b.file;
        write_trackers =
            set b.write_trackers tag (record (filled v t) { offset = 0; count = 0; size = 0 });
        responses = b.responses ++ record { beat = 0; tag = tag } ∷ [];
      })
unfolding run_data can_accept handle_data store_beat
run_data-last v tag ds t b e room eq =
    let lt0 : ltb 0 t.size ≡ true = ground arith in
    let ok : leb 1024 t.count ≡ false = ground arith in
    let lt1 : ltb (t.count + 1) t.size ≡ false = ground arith in rw (e, lt0, ok, lt1)

-- The beats `vs`, which fill it, are written to the file in one piece.
run_data-beats_for :
    (vs pre : List ℕ) (tag : ℕ) (t : Tracker) (b : Block)
    → IsFilling t pre
    → get_elem? b.write_trackers tag ≡ some t
    → tag < length b.write_trackers
    → 0 < length vs
    → t.count + length vs ≡ t.size
    → (u : Tracker) × (run_data (beats_for tag vs) b
        ≡ done (record b {
          file = write_back u b.file;
          write_trackers = set b.write_trackers tag (record u { offset = 0; count = 0; size = 0 });
          responses = b.responses ++ record { beat = 0; tag = tag } ∷ [];
          req_data = [];
        }))
      × Holds u (pre ++ vs)
      × (u.offset ≡ t.offset)
      × (u.count ≡ t.size)
unfolding run_data
run_data-beats_for [] pre tag t b f e lt pos n = absurd (omega arith)
run_data-beats_for (v ∷ []) pre tag t b f e lt pos n = (
  filled v t,
  run_data-last v tag [] t b e f.room (omega arith),
  filled-Holds v t pre f.holds,
  refl,
  omega arith,
)
run_data-beats_for (v ∷ w ∷ vs) pre tag t b f e lt pos n =
    let t' : Tracker = filled v t in
    let b' : Block = record b { write_trackers = set b.write_trackers tag t' } in
    let f' : IsFilling t' (pre ++ v ∷ []) = record {
      holds = filled-Holds v t pre f.holds;
      room = f.room;
      open_ = f.open_;
    } in
    let (u, run, h, o, c) =
      run_data-beats_for (w ∷ vs) (pre ++ v ∷ []) tag t' b' f'
        (get_elem?-set_self b.write_trackers tag t' lt)
        (omega (arith, length-set b.write_trackers tag t')) (omega arith) (omega arith) in
    (
      u,
      run_data-partial v tag (beats_for tag (w ∷ vs)) t b e f.room (omega arith)
          ∙ run
          ∙ rw
              (set-set_self b.write_trackers tag t' (record u { offset = 0; count = 0; size = 0 })),
      rw (append_assoc pre (v ∷ []) (w ∷ vs)) at h,
      o,
      c,
    )

-- A write of `vs` to the sectors from `offset` on, as `tick` queues it.
pub record IsWrite (b : Block) (offset len tag : ℕ) (vs : List ℕ) : Type 0 where
  pub requests : b.requests ≡ record { write = true; offset = offset; len = len; tag = tag } ∷ []
  pub req_data : b.req_data ≡ beats_for tag vs
  pub in_device : offset + len ≤ b.nsectors
  pub some_len : 0 < len
  pub max_len : len ≤ 16
  pub tag_lt : tag < b.ntags
  pub beats : length vs ≡ len * 64

-- As `construct` makes it: one tracker a tag, and the sectors counted are in the file.
pub record IsDevice (b : Block) : Type 0 where
  pub trackers : length b.write_trackers ≡ b.ntags
  pub sectors : b.nsectors < 2 ^ 32
  pub in_file : b.nsectors * 512 ≤ b.file.bytes

pub in_order-true :
    (b : Block) (req : Request)
    → req.offset + req.len ≤ b.nsectors
    → b.nsectors < 2 ^ 32
    → 0 < req.len
    → req.len ≤ 16
    → req.tag < b.ntags
    → in_order b req ≡ true
in_order-true b req h n pos max lt = ground arith

-- The request arms its tracker.
run_round-armed :
    (b : Block) (req : Request) (t : Tracker)
    → b.requests ≡ req ∷ []
    → req.write ≡ true
    → in_order b req ≡ true
    → get_elem? b.write_trackers req.tag ≡ some t
    → run_round b
      ≡ run_data b.req_data
          (record b { requests = []; write_trackers = set b.write_trackers req.tag (armed req t) })
unfolding run_round run_requests do_write do_write_at
run_round-armed b req t r w order e = rw (r, w, e, order)

-- On a device with a tracker a tag and its sectors in its file, a round that finds one write
-- request of 1 to 16 sectors of the device under one of its tags, and the beats for it, returns:
-- the file then holds the beats from the first of the sectors on and is otherwise as it was, in
-- size too, one acknowledgement under the tag is appended to the responses, and nothing is left
-- queued.
pub write_lem :
    (b : Block) (offset len tag : ℕ) (vs : List ℕ)
    → IsDevice b
    → IsWrite b offset len tag vs
    → (b' : Block) × (run_round b ≡ done b')
      × (b'.responses ≡ b.responses ++ record { beat = 0; tag = tag } ∷ [])
      × (b'.file.beats ≡ overlay (offset * 64) vs b.file.beats)
      × (b'.file.bytes ≡ b.file.bytes)
      × (b'.requests ≡ [])
      × (b'.req_data ≡ [])
      × (b'.nsectors ≡ b.nsectors)
      × (b'.ntags ≡ b.ntags)
      × (length b'.write_trackers ≡ length b.write_trackers)
unfolding armed write_back
write_lem b offset len tag vs d w =
    let (t, e) = get_elem?-some b.write_trackers tag (omega (arith, d.trackers, w.tag_lt)) in
    let req : Request = record { write = true; offset = offset; len = len; tag = tag } in
    let t' : Tracker = armed req t in
    let b' : Block = record b { requests = []; write_trackers = set b.write_trackers tag t' } in
    let f : IsFilling t' [] = record {
      holds = refl;
      room = omega (arith, w.max_len);
      open_ = omega (arith, w.some_len);
    } in
    let (u, run, h, o, c) =
      run_data-beats_for vs [] tag t' b' f
        (get_elem?-set_self b.write_trackers tag t' (omega (arith, d.trackers, w.tag_lt)))
        (omega (arith, length-set b.write_trackers tag t', d.trackers, w.tag_lt))
        (omega (arith, w.beats, w.some_len)) (omega (arith, w.beats)) in
    let order : in_order b req ≡ true =
      in_order-true b req w.in_device d.sectors w.some_len w.max_len w.tag_lt in
    let at_ : u.offset / 8 ≡ offset * 64 = omega (arith, o) in
    let beats_eq : overlay (u.offset / 8) (bytes_at u.buffer 0 u.count) b.file.beats
        ≡ overlay (offset * 64) vs b.file.beats =
      ap₂ (λ (a : ℕ) (l : List ℕ). overlay a l b.file.beats) at_ h in
    (
      record b {
        file = write_back u b.file;
        requests = [];
        req_data = [];
        responses = b.responses ++ record { beat = 0; tag = tag } ∷ [];
        write_trackers = set b'.write_trackers tag (record u { offset = 0; count = 0; size = 0 });
      },
      run_round-armed b req t w.requests refl order e
          ∙ ap (λ (l : List Data). run_data l b') w.req_data
          ∙ run,
      refl,
      beats_eq,
      ground (arith, o, c, w.in_device, d.in_file),
      refl,
      refl,
      refl,
      refl,
      length-set (set b.write_trackers tag t') tag (record u { offset = 0; count = 0; size = 0 })
          ∙ length-set b.write_trackers tag t',
    )
