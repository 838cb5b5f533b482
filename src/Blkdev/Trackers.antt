-- ===== src/Blkdev/Trackers.antt =====
-- The trackers stay within their buffers.
use uart_tsi.Base.{
  ℕ, ◌+◌, ◌*◌, ◌≤◌, ◌<◌, ◌≡◌, refl, sym, ◌∙◌, ◌⊎◌, inl, inr, Bool, true, false, ◌&&◌, is_empty, not,
  Option, some, none, List, [], ◌∷◌, arith, length, leb, ltb, if◌then◌else◌, Run, done, stop, ◌>>=◌,
  aborted, All, get_elem?, All-get_elem?, All-set, length-set, get_elem?-some, All-append,
  All-replicate, length-replicate,
}
use mathlib.Core.Path.{subst}
use uart_tsi.Blkdev.{
  Request, Data, Tracker, File, Block, do_read, do_write, in_order, do_write_at, armed, can_accept,
  handle_data, store_beat, filled, run_data, run_round, run_requests, send_request, send_data,
  construct, tick, Inputs, no_tracker,
}

-- An idle tracker, or one that still wants a beat, with no more beats than the array has.
abbrev pub IsTracker : Tracker → Type 0
IsTracker t = (t.size ≤ 1024) × ((t.size ≡ 0) ⊎ (t.count < t.size))

-- A request that names no tracker past the last
abbrev pub IsNamed : ℕ → Request → Type 0
IsNamed n req = (req.write ≡ false) ⊎ (req.tag < n)

-- One tracker a tag, each of them within its array, and no queued beat or write request with a tag
-- past the last.
pub record IsSound (n : ℕ) (b : Block) : Type 0 where
  pub ntags : b.ntags ≡ n
  pub one_each : length b.write_trackers ≡ n
  pub trackers : All IsTracker b.write_trackers
  pub tags : All (λ d. d.tag < n) b.req_data
  pub named : All (IsNamed n) b.requests

-- What a step may end in: a sound device, or the abort on a bad request.
abbrev pub Sound : ℕ → Run Block → Type 0
Sound n (done b) = IsSound n b
Sound n (stop s) = s ≡ aborted

Sound->>= :
    (n : ℕ) (m : Run Block) (f : Block → Run Block)
    → Sound n m
    → ((b : Block) → IsSound n b → Sound n (f b))
    → Sound n (m >>= f)
Sound->>= n (done b) f h k = k b h
Sound->>= n (stop s) f h k = h

Sound-if :
    (n : ℕ) (c : Bool) (m m' : Run Block)
    → (c ≡ true → Sound n m)
    → (c ≡ false → Sound n m')
    → Sound n (if c then m else m')
Sound-if n true m m' h k = h refl
Sound-if n false m m' h k = k refl

IsSound-if :
    (n : ℕ) (c : Bool) (b b' : Block)
    → (c ≡ true → IsSound n b)
    → (c ≡ false → IsSound n b')
    → IsSound n (if c then b else b')
IsSound-if n true b b' h k = h refl
IsSound-if n false b b' h k = k refl

do_read-Sound : (n : ℕ) (req : Request) (b : Block) → IsSound n b → Sound n (do_read req b)
unfolding do_read
do_read-Sound n req b h =
    Sound-if n (not (in_order b req)) _ _ (λ e. refl)
      (λ e.
        Sound-if n (ltb b.file.bytes (req.offset * 512 + req.len * 512)) _ _ (λ e. refl)
          (λ e. record {
            ntags = h.ntags;
            one_each = h.one_each;
            trackers = h.trackers;
            tags = h.tags;
            named = h.named;
          }))

do_write_at-Sound :
    (n : ℕ) (req : Request) (t : Tracker) (b : Block)
    → IsSound n b
    → Sound n (do_write_at req (some t) b)
unfolding do_write_at armed
do_write_at-Sound n req t b h =
    Sound-if n (not (in_order b req)) _ _ (λ e. refl)
      (λ e.
        let max : req.len ≤ 16 = ground arith in
        let some_len : 0 < req.len = ground arith in
        record {
          ntags = h.ntags;
          one_each = length-set b.write_trackers req.tag (armed req t) ∙ h.one_each;
          trackers =
              All-set IsTracker b.write_trackers req.tag (armed req t) h.trackers
                (omega arith, inr (omega arith));
          tags = h.tags;
          named = h.named;
        })

do_write-Sound :
    (n : ℕ) (req : Request) (b : Block) → req.tag < n → IsSound n b → Sound n (do_write req b)
unfolding do_write
do_write-Sound n req b lt h =
    let (t, g) = get_elem?-some b.write_trackers req.tag (omega (arith, h.one_each, lt)) in
    subst (λ (o : Option Tracker). Sound n (do_write_at req o b)) (sym g)
      (do_write_at-Sound n req t b h)

run_request-Sound :
    (n : ℕ) (req : Request) (b : Block)
    → IsNamed n req
    → IsSound n b
    → Sound n (if req.write then do_write req b else do_read req b)
run_request-Sound n req b (inl reads) h =
    subst (λ (c : Bool). Sound n (if c then do_write req b else do_read req b)) (sym reads)
      (do_read-Sound n req b h)
run_request-Sound n req b (inr lt) h =
    Sound-if n req.write _ _ (λ e. do_write-Sound n req b lt h) (λ e. do_read-Sound n req b h)

run_requests-Sound :
    (n : ℕ) (reqs : List Request) (b : Block)
    → All (IsNamed n) reqs
    → IsSound n b
    → Sound n (run_requests reqs b)
unfolding run_requests
run_requests-Sound n [] b a h = record {
  ntags = h.ntags;
  one_each = h.one_each;
  trackers = h.trackers;
  tags = h.tags;
  named = tt;
}
run_requests-Sound n (req ∷ reqs) b a h =
    Sound->>= n _ (run_requests reqs) (run_request-Sound n req b a.0 h)
      (λ b' h'. run_requests-Sound n reqs b' a.1 h')

store_beat-Sound :
    (n : ℕ) (d : Data) (t : Tracker) (b : Block)
    → IsSound n b
    → get_elem? b.write_trackers d.tag ≡ some t
    → 0 < t.size
    → Sound n (store_beat d t b)
unfolding store_beat
store_beat-Sound n d t b h g pos =
    let (size, open_) = All-get_elem? IsTracker b.write_trackers d.tag h.trackers g in
    let lt : t.count < t.size = ground arith in
    let t' : Tracker = filled d.beat t in
    let idle : Tracker = record t' { offset = 0; count = 0; size = 0 } in
    Sound-if n (leb 1024 t.count) _ _ (λ e. absurd (ground arith))
      (λ e.
        Sound-if n (ltb t'.count t'.size) _ _
          (λ e. record {
            ntags = h.ntags;
            one_each = length-set b.write_trackers d.tag t' ∙ h.one_each;
            trackers =
                All-set IsTracker b.write_trackers d.tag t' h.trackers (size, inr (ground arith));
            tags = h.tags;
            named = h.named;
          })
          (λ e. record {
            ntags = h.ntags;
            one_each = length-set b.write_trackers d.tag idle ∙ h.one_each;
            trackers =
                All-set IsTracker b.write_trackers d.tag idle h.trackers (omega arith, inl refl);
            tags = h.tags;
            named = h.named;
          }))

run_data-Sound :
    (n : ℕ) (ds : List Data) (b : Block)
    → IsSound n b
    → All (λ d. d.tag < n) ds
    → Sound n (run_data ds b)
unfolding run_data can_accept handle_data
run_data-Sound n [] b h a = record {
  ntags = h.ntags;
  one_each = h.one_each;
  trackers = h.trackers;
  tags = tt;
  named = h.named;
}
run_data-Sound n (d ∷ ds) b h a =
    let (t, g) = get_elem?-some b.write_trackers d.tag (omega (arith, h.one_each, a.0)) in
    rw g (
      Sound-if n (ltb 0 t.size) _ _
        (λ e.
          Sound->>= n _ (run_data ds) (store_beat-Sound n d t b h g (ground arith))
            (λ b' h'. run_data-Sound n ds b' h' a.1))
        (λ e. record {
          ntags = h.ntags;
          one_each = h.one_each;
          trackers = h.trackers;
          tags = a;
          named = h.named;
        }))

-- A round on a sound device with `n` tags ends with a sound device with `n` tags or in the abort
-- on a bad request: it never indexes past the vector of trackers, nor writes past the array of
-- one.
pub run_round-Sound : (n : ℕ) (b : Block) → IsSound n b → Sound n (run_round b)
unfolding run_round
run_round-Sound n b h =
    Sound->>= n (run_requests b.requests b) _ (run_requests-Sound n b.requests b h.named h)
      (λ b' h'. run_data-Sound n b'.req_data b' h' h'.tags)

-- A call of `tick` keeps a device with `n` tags sound when the beat and the write request that it is
-- given, if any, have tags below `n`.
pub tick-IsSound :
    (n : ℕ) (i : Inputs) (b : Block)
    → (i.req_valid ≡ true → IsNamed n i.req)
    → (i.data_valid ≡ true → i.data_bits.tag < n)
    → IsSound n b
    → IsSound n (tick i b)
unfolding tick send_request send_data
tick-IsSound n i b named_ lt h =
    let b₁ : Block = if i.req_valid then send_request i.req b else b in
    let h₁ : IsSound n b₁ =
      IsSound-if n i.req_valid _ _
        (λ e. record {
          ntags = h.ntags;
          one_each = h.one_each;
          trackers = h.trackers;
          tags = h.tags;
          named = All-append (IsNamed n) b.requests (i.req ∷ []) h.named (named_ e, tt);
        })
        (λ e. h) in
    let b₂ : Block = if i.data_valid then send_data i.data_bits b₁ else b₁ in
    let h₂ : IsSound n b₂ =
      IsSound-if n i.data_valid _ _
        (λ e. record {
          ntags = h₁.ntags;
          one_each = h₁.one_each;
          trackers = h₁.trackers;
          tags = All-append (λ d. d.tag < n) b₁.req_data (i.data_bits ∷ []) h₁.tags (lt e, tt);
          named = h₁.named;
        })
        (λ e. h₁) in
    IsSound-if n (not (is_empty b₂.responses) && i.resp_ready) _ _
      (λ e. record {
        ntags = h₂.ntags;
        one_each = h₂.one_each;
        trackers = h₂.trackers;
        tags = h₂.tags;
        named = h₂.named;
      })
      (λ e. h₂)

-- The device that `construct` makes from a file is sound.
pub construct-Sound : (file : Option File) (n : ℕ) → Sound n (construct file n)
unfolding construct
construct-Sound none n = refl
construct-Sound (some f) n = record {
  ntags = refl;
  one_each = length-replicate n no_tracker;
  trackers = All-replicate IsTracker n no_tracker (omega arith, inl refl);
  tags = tt;
  named = tt;
}

-- The states of a device with `n` tags over `file`: the constructor's, and each one's after a call of
-- `tick` and a round of `run`.
pub data Reachable (file : Option File) (n : ℕ) : Block → Type 0 where
  constructed : {b : Block} → construct file n ≡ done b → Reachable file n b
  ticked :
      {b b' : Block} (i : Inputs)
      → (i.req_valid ≡ true → IsNamed n i.req)
      → (i.data_valid ≡ true → i.data_bits.tag < n)
      → Reachable file n b
      → run_round (tick i b) ≡ done b'
      → Reachable file n b'

pub Reachable-IsSound : {file : Option File} {n : ℕ} {b : Block} → Reachable file n b → IsSound n b
Reachable-IsSound {file} {n} (constructed e) = subst (Sound n) e (construct-Sound file n)
Reachable-IsSound {file} {n} (ticked {b} i named_ lt r e) =
    subst (Sound n) e
      (run_round-Sound n (tick i b) (tick-IsSound n i b named_ lt (Reachable-IsSound r)))

-- From any state of a device that the constructor, ticks and rounds reach with beats and write
-- requests of tags below the number of tags, a tick whose beat and write request, if any, have such
-- tags and a round end in a sound device or in the abort on a bad request: no tracker past the last
-- is looked up, and no beat is stored past a tracker's array.
pub Reachable-Sound :
    {file : Option File} {n : ℕ} {b : Block} (i : Inputs)
    → Reachable file n b
    → (i.req_valid ≡ true → IsNamed n i.req)
    → (i.data_valid ≡ true → i.data_bits.tag < n)
    → Sound n (run_round (tick i b))
Reachable-Sound {file} {n} {b} i r named_ lt =
    run_round-Sound n (tick i b) (tick-IsSound n i b named_ lt (Reachable-IsSound r))
