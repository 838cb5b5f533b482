-- ===== src/Dramsim/Bursts.antt =====
-- What a read is answered with: its beats, which `read_complete` puts behind the other responses.
use uart_tsi.Base.{
  ℕ, zero, suc, ◌*◌, ◌/◌, ◌≡◌, refl, ap, sym, ◌∙◌, false, List, [], ◌∷◌, ◌++◌, append-nil,
  append_assoc, is_empty, length, add64, done, >>=-eq-done, done-injective,
}
use mathlib.Core.Path.{subst}
use uart_tsi.Mm.{Mm, Rresp, read, read_beats}
use uart_tsi.Dramsim.Queues.{Req}
use uart_tsi.Dramsim.Tick.{Dram, beats_of}

-- Beats of one identifier with the words of the memory from `addr` on, of which only the last is marked
-- so.
abbrev pub IsBurst : Mm → ℕ → ℕ → List Rresp → Type 0
IsBurst m id addr [] = Unit
IsBurst m id addr (b ∷ bs) =
    (b.id ≡ id)
    × (read addr m ≡ done b.word)
    × (b.last ≡ is_empty bs)
    × IsBurst m id (add64 addr m.word_size) bs

-- As many beats as are asked for, from the word of the address on.
abbrev pub IsAnswer : Mm → Req → List Rresp → Type 0
IsAnswer m r bs = (length bs ≡ r.len) × IsBurst m r.id (r.addr / m.word_size * m.word_size) bs

-- The answers to some reads, one behind the other
abbrev pub AreAnswers : Mm → List Req → List Rresp → Type 0
AreAnswers m [] l = l ≡ []
AreAnswers m (r ∷ rs) l =
    (bs : List Rresp) × (later : List Rresp) × (l ≡ bs ++ later)
    × IsAnswer m r bs
    × AreAnswers m rs later

is_empty-length : (n : ℕ) (bs : List Rresp) → length bs ≡ suc n → is_empty bs ≡ false
is_empty-length n [] h = cc
is_empty-length n (b ∷ bs) h = refl

read_beats-IsBurst :
    (n addr id : ℕ) (m : Mm) {bs : List Rresp}
    → read_beats n addr id m ≡ done bs
    → (length bs ≡ suc n) × IsBurst m id addr bs
unfolding read_beats
read_beats-IsBurst zero addr id m h =
    let (w, e, h₁) = >>=-eq-done (read addr m) _ h in
    subst (λ l. (length l ≡ 1) × IsBurst m id addr l) (done-injective h₁)
      (refl, (refl, e, refl, tt))
read_beats-IsBurst (suc n) addr id m h =
    let (w, e, h₁) = >>=-eq-done (read addr m) _ h in
    let (bs, e₁, h₂) = >>=-eq-done (read_beats n (add64 addr m.word_size) id m) _ h₁ in
    let (len, all) = read_beats-IsBurst n (add64 addr m.word_size) id m e₁ in
    subst (λ l. (length l ≡ suc (suc n)) × IsBurst m id addr l) (done-injective h₂)
      (ap suc len, (refl, e, sym (is_empty-length n bs len), all))

beats_of-IsBurst :
    (len addr id : ℕ) (m : Mm) {bs : List Rresp}
    → beats_of len addr id m ≡ done bs
    → (length bs ≡ len) × IsBurst m id addr bs
unfolding beats_of
beats_of-IsBurst zero addr id m h =
    subst (λ l. (length l ≡ 0) × IsBurst m id addr l) (done-injective h) (refl, tt)
beats_of-IsBurst (suc n) addr id m h = read_beats-IsBurst n addr id m h

pub beats_of-IsAnswer :
    (r : Req) (m : Mm) {bs : List Rresp}
    → beats_of r.len (r.addr / m.word_size * m.word_size) r.id m ≡ done bs
    → IsAnswer m r bs
beats_of-IsAnswer r m h = beats_of-IsBurst r.len (r.addr / m.word_size * m.word_size) r.id m h

pub AreAnswers-append :
    (m : Mm) (rs rs' : List Req) (l l' : List Rresp)
    → AreAnswers m rs l
    → AreAnswers m rs' l'
    → AreAnswers m (rs ++ rs') (l ++ l')
AreAnswers-append m [] rs' l l' e h = subst (AreAnswers m rs') (ap (λ k. k ++ l') (sym e)) h
AreAnswers-append m (r ∷ rs) rs' l l' (bs, later, e, one, all) h = (
  bs,
  later ++ l',
  ap (λ k. k ++ l') e ∙ append_assoc bs later l',
  one,
  AreAnswers-append m rs rs' later l' all h,
)

-- From `d` to `d'`, the answers to `cs` come behind the other responses.
abbrev pub Served : {M : Type 0} → Dram M → List Req → Dram M → Type 0
Served d cs d' =
    (l : List Rresp) × (d'.rresp ≡ d.rresp ++ l) × AreAnswers d.mm cs l × (d'.mm ≡ d.mm)

-- The answer to one read
pub AreAnswers-one :
    (m : Mm) (r : Req) (bs : List Rresp) → IsAnswer m r bs → AreAnswers m (r ∷ []) bs
AreAnswers-one m r bs h = (bs, [], sym (append-nil bs), h, refl)
