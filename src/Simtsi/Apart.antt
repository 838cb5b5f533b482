-- ===== src/Simtsi/Apart.antt =====
-- The chips do not touch each other's objects.
use uart_tsi.Base.{
  ℕ, ◌+◌, ◌*◌, ◌≡◌, ◌≢◌, refl, ap, true, false, some, List, [], ◌∷◌, if◌then◌else◌, ◌==◌,
  Bool-cases, inl, inr, done, >>=-eq-done, done-injective, arith,
}
use mathlib.Core.Path.{subst}
use uart_tsi.Base.Text.{Text}
use uart_tsi.Tsi.{TestchipTsi}
use uart_tsi.Simtsi.{
  TsiPort, Chips, find_chip, put_chip, TickInputs, TickOutputs, chip_of, tick_outputs, tsi_tick,
}

find_chip-put_chip_other :
    {S : Type 0} (n k : ℕ) (t : TestchipTsi S) (chips : Chips S)
    → (n == k) ≡ false
    → find_chip k (put_chip n t chips) ≡ find_chip k chips
find_chip-put_chip_other n k t [] h = rw h refl
find_chip-put_chip_other n k t ((m, u) ∷ chips) h = elim (Bool-cases (m == n)) [
  | inl e ↦ let other : (m == k) ≡ false = ground (arith, e, h) in rw (e, other) refl
  | inr e ↦ rw e (ap (λ r. if m == k then some u else r) (find_chip-put_chip_other n k t chips h))
]

find_chip-put_chip :
    {S : Type 0} (n : ℕ) (t : TestchipTsi S) (chips : Chips S)
    → find_chip n (put_chip n t chips) ≡ some t
find_chip-put_chip n t [] = let same : (n == n) ≡ true = ground arith in rw same refl
find_chip-put_chip n t ((m, u) ∷ chips) = elim (Bool-cases (m == n)) [
  | inl e ↦ rw (e, e) refl
  | inr e ↦ rw (e, e) (find_chip-put_chip n t chips)
]

-- A tick that returns leaves the objects of other chips as they are, makes or keeps one for its
-- own, and reports this one's end by an odd number that holds the exit code, or zero before the
-- end.
pub tsi_tick-apart :
    {S : Type 0} (port : TsiPort S) (args : List Text) (host : S) (n k : ℕ) (i : TickInputs)
    (chips : Chips S) {o : TickOutputs} {chips' : Chips S}
    → n ≢ k
    → tsi_tick port args host n i chips ≡ done (o, chips')
    → (find_chip k chips' ≡ find_chip k chips)
      × ((t : TestchipTsi S) × (find_chip n chips' ≡ some t)
          × (o.code ≡ (if port.is_done t.host then port.exit_code t.host * 2 + 1 else 0)))
unfolding tsi_tick tick_outputs
tsi_tick-apart {S = S} port args host n k i chips ne h =
    let (t, e₀, h₀) = >>=-eq-done (chip_of args host (find_chip n chips)) _ h in
    let s : S = port.switch_to_host (port.tick i.out_valid i.out_bits i.in_ready t.host) in
    let t' : TestchipTsi S = record t { host = s } in
    let apart : (n == k) ≡ false = ground arith in
    subst
      (λ r.
        (find_chip k r.1 ≡ find_chip k chips)
        × ((t : TestchipTsi S) × (find_chip n r.1 ≡ some t)
            × (r.0.code ≡ (if port.is_done t.host then port.exit_code t.host * 2 + 1 else 0))))
      (done-injective h₀)
      (find_chip-put_chip_other n k t' chips apart, (t', find_chip-put_chip n t' chips, refl))
