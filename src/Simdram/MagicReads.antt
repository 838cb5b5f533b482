-- ===== src/Simdram/MagicReads.antt =====
-- The queue of read responses through a tick of `mm_magic_t` in csrc/mm.cc.
use uart_tsi.Base.{
  ℕ, ◌*◌, ◌/◌, ◌≡◌, refl, ap, sym, ◌∙◌, Bool, true, false, ◌&&◌, not, List, [], ◌∷◌, ◌++◌,
  append-nil, if◌then◌else◌, Bool-cases, inl, inr, ltb, ◌==◌, is_empty, add64, sub64, Run, done,
  stop, aborted, undefined, ◌>>=◌, >>=-eq-done, done-injective,
}
use mathlib.Core.Path.{subst}
use uart_tsi.Mm.{
  Rresp, Magic, Axi, read_beats, write, pop, ar_step, aw_step, w_step, finish, end_step, tick,
  aw_ready, w_ready,
}
use uart_tsi.Simdram.Channel.{magic_object}
use uart_tsi.Simdram.Delivery.{ObjectLaws}

abbrev pub beats_or_none : Run (List Rresp) → List Rresp
beats_or_none (done beats) = beats
beats_or_none (stop s) = []

-- The beats of the read that a tick takes, as the memory is before the tick.
unfoldable pub magic_adds : Axi → Magic → List Rresp
magic_adds i g =
    if i.ar_valid
    then beats_or_none
        (read_beats i.ar_len (i.ar_addr / g.mm.word_size * g.mm.word_size) i.ar_id g.mm)
    else []

abbrev Keeps : Magic → Run Magic → Type 0
Keeps g (done g') = g'.rresp ≡ g.rresp
Keeps g (stop s) = Unit

Keeps-if :
    (g : Magic) (b : Bool) (m m' : Run Magic)
    → Keeps g m
    → Keeps g m'
    → Keeps g (if b then m else m')
Keeps-if g true m m' h k = h
Keeps-if g false m m' h k = k

Keeps-bind :
    {A : Type 0} (g : Magic) (m : Run A) (f : A → Run Magic)
    → ((a : A) → Keeps g (f a))
    → Keeps g (m >>= f)
Keeps-bind g (done a) f h = h a
Keeps-bind g (stop s) f h = tt

Keeps-done : (g : Magic) (m : Run Magic) {g' : Magic} → Keeps g m → m ≡ done g' → g'.rresp ≡ g.rresp
Keeps-done g m h e = subst (Keeps g) e h

aw_step-Keeps : (i : Axi) (g : Magic) → Keeps g (aw_step i g)
unfolding aw_step
aw_step-Keeps i g = Keeps-if g (ltb 30 i.aw_size) (stop undefined) (done _) tt refl

finish-Keeps : (last : Bool) (g : Magic) → Keeps g (finish last g)
unfolding finish
finish-Keeps last g =
    Keeps-if g (g.store_count == 0) _ (done g) (Keeps-if g last (done _) (stop aborted) refl tt)
      refl

w_step-Keeps : (i : Axi) (g : Magic) → Keeps g (w_step i g)
unfolding w_step
w_step-Keeps i g = Keeps-bind g (write g.store_addr i.w_data i.w_strb g.store_size g.mm) _ (λ m.
    finish-Keeps i.w_last (record g {
      mm = m;
      store_addr = add64 g.store_addr g.store_size;
      store_count = sub64 g.store_count 1;
    }))

ar_step-rresp :
    (i : Axi) (g : Magic) {g' : Magic}
    → (if i.ar_valid then ar_step i g else done g) ≡ done g'
    → g'.rresp ≡ g.rresp ++ magic_adds i g
unfolding ar_step magic_adds
ar_step-rresp i g {g'} h = elim (Bool-cases i.ar_valid) [
  | inl on ↦
      let m = read_beats i.ar_len (i.ar_addr / g.mm.word_size * g.mm.word_size) i.ar_id g.mm in
      let (beats, e, h') = >>=-eq-done m _ (rw on at h) in
      ap (λ (q : Magic). q.rresp) (sym (done-injective h')) ∙ rw (on, e) refl
  | inr off ↦
      ap (λ (q : Magic). q.rresp) (sym (done-injective (rw off at h)))
      ∙ rw off (sym (append-nil g.rresp))
]

-- The first response is taken out though others have come behind it.
pop-append :
    (l new : List Rresp) (ready : Bool)
    → (if not (is_empty l) && ready then pop (l ++ new) else l ++ new)
      ≡ (if ready then pop l else l) ++ new
unfolding pop
pop-append [] new true = refl
pop-append [] new false = refl
pop-append (r ∷ rs) new true = refl
pop-append (r ∷ rs) new false = refl

ar_part :
    (r : Bool) (i : Axi) (g : Magic) {g' : Magic}
    → r ≡ false
    → (if not r && i.ar_valid then ar_step i g else done g) ≡ done g'
    → g'.rresp ≡ g.rresp ++ magic_adds i g
ar_part true i g {g'} up h = cc
ar_part false i g {g'} up h = ar_step-rresp i g h

end_part :
    (r b : Bool) (l new : List Rresp) (ready : Bool) (g : Magic)
    → r ≡ false
    → g.rresp ≡ l ++ new
    → (end_step r b (not r && not (is_empty l) && ready) g).rresp
      ≡ (if ready then pop l else l) ++ new
unfolding end_step
end_part true b l new ready g up e = cc
end_part false b l new ready g up e =
    ap (λ (q : List Rresp). if not (is_empty l) && ready then pop q else q) e
    ∙ pop-append l new ready

pub tick-rresp :
    (i : Axi) (n : ℕ) (g g' : Magic)
    → i.reset ≡ false
    → tick i g ≡ done g'
    → g'.rresp ≡ (if i.r_ready then pop g.rresp else g.rresp) ++ magic_adds i g
unfolding tick
tick-rresp i n g g' up h =
    let (g₁, e₁, h₁) =
      >>=-eq-done (if not i.reset && i.ar_valid then ar_step i g else done g) _ h in
    let (g₂, e₂, h₂) =
      >>=-eq-done (if not i.reset && i.aw_valid && aw_ready g then aw_step i g₁ else done g₁) _
        h₁ in
    let (g₃, e₃, h₃) =
      >>=-eq-done (if not i.reset && i.w_valid && w_ready g then w_step i g₂ else done g₂) _ h₂ in
    let q₁ = ar_part i.reset i g up e₁ in
    let q₂ = Keeps-done g₁ _ (Keeps-if g₁ _ _ (done g₁) (aw_step-Keeps i g₁) refl) e₂ in
    let q₃ = Keeps-done g₂ _ (Keeps-if g₂ _ _ (done g₂) (w_step-Keeps i g₂) refl) e₃ in
    ap (λ (q : Magic). q.rresp) (sym (done-injective h₃))
    ∙ end_part i.reset _ g.rresp (magic_adds i g) i.r_ready g₃ up (q₃ ∙ q₂ ∙ q₁)

unfoldable pub magic_laws : ObjectLaws magic_object
unfolding magic_object
magic_laws = record { adds = λ i n g. magic_adds i g; tick_rresp = tick-rresp }
