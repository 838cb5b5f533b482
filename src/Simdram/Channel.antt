-- ===== src/Simdram/Channel.antt =====
-- `memory_tick` of csrc/SimDRAM.cc, over the members of `mm_t` in csrc/mm.h that it calls.
use uart_tsi.Base.{
  ℕ, ◌&&◌, not, Bool, true, false, List, [], ◌∷◌, ◌++◌, if◌then◌else◌, leb, is_empty, length, take,
  Run, done, undefined, check, ◌>>=◌, ◌>>◌,
}
use uart_tsi.Base.Memory.{bytes_at}
use uart_tsi.Plusarg.{le_value}
use uart_tsi.Mm.{Mm, Rresp, Magic, Axi, aw_ready, w_ready}
use uart_tsi.Mm
use uart_tsi.Dramsim.Tick.{MemorySystem, Dram, dram_ar_ready, dram_aw_ready}
use uart_tsi.Dramsim.Tick

-- The virtual members of `mm_t`, over the object's state `A`. `tick` takes `ar_size` behind the
-- other inputs. Both kinds of memory have a queue of responses to reads and one to writes.
pub record MemoryObject (A : Type 0) : Type 0 where
  pub tick : Axi → ℕ → A → Run A
  pub ar_ready : A → Bool
  pub aw_ready : A → Bool
  pub w_ready : A → Bool
  pub mm : A → Mm
  pub rresp : A → List Rresp
  pub bresp : A → List ℕ

-- `mm_magic_t`
unfoldable pub magic_object : MemoryObject Magic
magic_object = record {
  tick = λ i ar_size g. Mm.tick i g;
  ar_ready = λ g. true;
  aw_ready = aw_ready;
  w_ready = w_ready;
  mm = λ g. g.mm;
  rresp = λ g. g.rresp;
  bresp = λ g. g.bresp;
}

-- `mm_dramsim2_t`
unfoldable pub dram_object : {M : Type 0} → MemorySystem M → MemoryObject (Dram M)
dram_object sys = record {
  tick = Tick.tick sys;
  ar_ready = dram_ar_ready sys;
  aw_ready = dram_aw_ready sys;
  w_ready = λ d. d.store_inflight;
  mm = λ d. d.mm;
  rresp = λ d. d.rresp;
  bresp = λ d. d.bresp;
}

-- What `memory_tick` puts out
pub record AxiOut : Type 0 where
  pub ar_ready : Bool
  pub aw_ready : Bool
  pub w_ready : Bool
  pub r_valid : Bool
  pub r_id : ℕ
  pub r_resp : ℕ
  pub r_data : ℕ
  pub r_last : Bool
  pub b_valid : Bool
  pub b_id : ℕ
  pub b_resp : ℕ

-- `*((long *) mm->r_data())`, as a word: of the first response, which must have its eight bytes, or
-- of the start of the memory.
unfoldable pub shown_data : List Rresp → Mm → Run ℕ
unfolding le_value
shown_data [] m = done (le_value (bytes_at m.bytes 0 8))
shown_data (r ∷ rs) m = do check (leb 8 (length r.word)) undefined; done (le_value (take 8 r.word))

unfoldable pub first_id : List Rresp → ℕ
first_id [] = 0
first_id (r ∷ rs) = r.id

unfoldable pub first_last : List Rresp → Bool
first_last [] = false
first_last (r ∷ rs) = r.last

unfoldable pub first_bresp : List ℕ → ℕ
first_bresp [] = 0
first_bresp (b ∷ bs) = b

module _ {A : Type 0} (obj : MemoryObject A) where
  -- The signals once the data is there
  unfoldable pub axi_outputs : ℕ → A → AxiOut
  unfolding first_id first_last first_bresp
  axi_outputs r_data c = record {
    ar_ready = obj.ar_ready c;
    aw_ready = obj.aw_ready c;
    w_ready = obj.w_ready c;
    r_valid = not (is_empty (obj.rresp c));
    r_id = first_id (obj.rresp c);
    r_resp = 0;
    r_data = r_data;
    r_last = first_last (obj.rresp c);
    b_valid = not (is_empty (obj.bresp c));
    b_id = first_bresp (obj.bresp c);
    b_resp = 0;
  }

  unfoldable pub memory_tick : Axi → ℕ → A → Run (AxiOut × A)
  unfolding shown_data axi_outputs
  memory_tick i ar_size c = do
    c' ← obj.tick i ar_size c
    r_data ← shown_data (obj.rresp c') (obj.mm c')
    done (axi_outputs r_data c', c')

-- What a read takes of the outputs
pub record Beat : Type 0 where
  pub id : ℕ
  pub word : ℕ
  pub last : Bool

abbrev pub beat_of_out : AxiOut → Beat
beat_of_out o = record { id = o.r_id; word = o.r_data; last = o.r_last }

-- The design at a call: it takes the beat that the call before has shown, if it is ready.
abbrev pub received : AxiOut → Axi → List Beat
received o i = if o.r_valid && i.r_ready then beat_of_out o ∷ [] else []

-- One call after the other, from the outputs `o`, with the beats that the design takes.
module _ {A : Type 0} (obj : MemoryObject A) where
  unfoldable pub run_channel : List (Axi × ℕ) → AxiOut → A → Run (List Beat × A)
  unfolding memory_tick
  run_channel [] o c = done ([], c)
  run_channel ((i, ar_size) ∷ is) o c = do
    (o', c') ← memory_tick obj i ar_size c
    (beats, c'') ← run_channel is o' c'
    done (received o i ++ beats, c'')
