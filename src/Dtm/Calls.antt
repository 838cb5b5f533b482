-- ===== src/Dtm/Calls.antt =====
-- Every call that `reset` makes is for an existing register, with a value of 64 bits.
use uart_tsi.Base.{
  ℕ, ◌+◌, ◌≤◌, ◌≡◌, refl, Bool, true, false, ◌&&◌, not, List, [], ◌∷◌, ◌++◌, if◌then◌else◌, ltb,
  ◌==◌, arith, length, All, All-append,
}
use uart_tsi.Dtm.Encoding.{csr_dscratch0}
use uart_tsi.Dtm.State.{
  LoadarchState, IsLoadarch, Is64, csr_values, csr_numbers, fs_on, vs_on, all_on,
}
use uart_tsi.Dtm.Restore.{
  Restore, vtype, csr, regs_from, fregs_from, vregs_from, restore_calls, float_calls, vector_calls,
  csr_calls,
}
use uart_tsi.Dtm.Sequence.{IsCall}

-- The number of a CSR other than the one that the programs themselves use.
abbrev plain : ℕ → Bool
plain n = ltb n 4096 && not (n == csr_dscratch0)

abbrev csrs : List ℕ → List ℕ → List Restore
csrs (n ∷ ns) (w ∷ ws) = csr n w ∷ csrs ns ws
csrs _ _ = []

csr-IsCall : (n w : ℕ) → plain n ≡ true → Is64 w → IsCall (csr n w)
csr-IsCall n w p h = (ground arith, ground arith, h)

csrs-IsCall :
    (ns ws : List ℕ) → All (λ n. plain n ≡ true) ns → All Is64 ws → All IsCall (csrs ns ws)
csrs-IsCall [] ws p h = tt
csrs-IsCall (n ∷ ns) [] p h = tt
csrs-IsCall (n ∷ ns) (w ∷ ws) p h = (csr-IsCall n w p.0 h.0, csrs-IsCall ns ws p.1 h.1)

regs_from-IsCall :
    (i : ℕ) (ws : List ℕ) → i + length ws ≤ 32 → All Is64 ws → All IsCall (regs_from i ws)
regs_from-IsCall i [] lt h = tt
regs_from-IsCall i (w ∷ ws) lt h =
    ((omega arith, h.0), regs_from-IsCall (i + 1) ws (omega arith) h.1)

fregs_from-IsCall :
    (i : ℕ) (ws : List ℕ) → i + length ws ≤ 32 → All Is64 ws → All IsCall (fregs_from i ws)
fregs_from-IsCall i [] lt h = tt
fregs_from-IsCall i (w ∷ ws) lt h =
    ((omega arith, h.0), fregs_from-IsCall (i + 1) ws (omega arith) h.1)

vregs_from-IsCall :
    (i : ℕ) (bss : List (List ℕ)) → i + length bss ≤ 32 → All IsCall (vregs_from i bss)
vregs_from-IsCall i [] lt = tt
vregs_from-IsCall i (bs ∷ bss) lt = (omega arith, vregs_from-IsCall (i + 1) bss (omega arith))

All-if : (b : Bool) (rs : List Restore) → All IsCall rs → All IsCall (if b then rs else [])
All-if true rs h = h
All-if false rs h = tt

csrs-append-IsCall :
    (rs : List Restore) (ns ws : List ℕ) (ss : List Restore)
    → All IsCall rs
    → All (λ n. plain n ≡ true) ns
    → All Is64 ws
    → All IsCall ss
    → All IsCall (rs ++ (csrs ns ws ++ ss))
csrs-append-IsCall rs ns ws ss h p k l =
    All-append IsCall rs _ h (All-append IsCall (csrs ns ws) ss (csrs-IsCall ns ws p k) l)

pub restore_calls-IsCall : (st : LoadarchState) → IsLoadarch st → All IsCall (restore_calls st)
unfolding restore_calls
restore_calls-IsCall st (nx, nf, nv, hx, hf, hc, (h₀, (h₁, (h₂, (h₃, (h₄, _)))))) =
    let float : All IsCall (float_calls st) = All-if (fs_on st) _ (
      csrs-append-IsCall (fregs_from 0 st.fpr) (3 ∷ []) (st.fcsr ∷ []) []
        (fregs_from-IsCall 0 st.fpr (omega arith) hf) (refl, tt) (h₀, tt) tt) in
    let vector : All IsCall (vector_calls st) = All-if (st.has_vector && vs_on st) _ (
      csrs-append-IsCall (vregs_from 0 st.vpr) (8 ∷ 9 ∷ 10 ∷ 15 ∷ [])
        (st.vstart ∷ st.vxsat ∷ st.vxrm ∷ st.vcsr ∷ []) (vtype _ ∷ [])
        (vregs_from-IsCall 0 st.vpr (omega arith)) (refl, (refl, (refl, (refl, tt))))
        (h₁, (h₂, (h₃, (h₄, tt)))) (tt, tt)) in
    let csr_ : All IsCall (csr_calls st) =
      csrs-IsCall csr_numbers (csr_values st)
        (
          refl,
          (
            refl,
            (
              refl,
              (
                refl,
                (
                  refl,
                  (
                    refl,
                    (
                      refl,
                      (
                        refl,
                        (
                          refl,
                          (
                            refl,
                            (
                              refl,
                              (refl, (refl, (refl, (refl, (refl, (refl, (refl, (refl, tt)))))))),
                            ),
                          ),
                        ),
                      ),
                    ),
                  ),
                ),
              ),
            ),
          ),
        )
        hc in
    (
      csr-IsCall 0x300 all_on refl (omega arith),
      All-append IsCall (float_calls st) _ float (
          All-append IsCall (vector_calls st) _ vector
            (All-append IsCall (csr_calls st) _ csr_ (regs_from-IsCall 0 st.xpr (omega arith) hx))),
    )
