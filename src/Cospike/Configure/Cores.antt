-- ===== src/Cospike/Configure/Cores.antt =====
-- The loop of `cospike_cosim` over the harts, which is given the hart of the call in every round.
use uart_tsi.Base.{
  ℕ, zero, suc, ◌<◌, ◌≡◌, refl, ◌∙◌, ◌≢◌, Bool, true, false, ◌&&◌, if◌then◌else◌, leb, ◌==◌, arith,
  Bool-cases, inl, inr,
}
use uart_tsi.Cospike.Core.{Core}
use uart_tsi.Cospike.Configure.{Spike, Impl, sv48, sv57, asid, configure_core, configure_cores}

abbrev pub same_impl : Impl → Impl → Bool
same_impl sv48 sv48 = true
same_impl sv57 sv57 = true
same_impl asid asid = true
same_impl _ _ = false

-- What the library documents of its setters: each changes what it names, of its own core only.
pub record CoresLaws {S : Type 0} (spike : Spike S) (get_core : ℕ → Core S) : Type 0 where
  pub has_impl : ℕ → Impl → S → Bool
  pub pc_write :
      (h k a : ℕ) (s : S)
      → (get_core k).pc ((get_core h).write_pc a s) ≡ (if k == h then a else (get_core k).pc s)
  pub impl_write :
      (h k a : ℕ) (f : Impl) (s : S) → has_impl k f ((get_core h).write_pc a s) ≡ has_impl k f s
  pub pc_set :
      (h k : ℕ) (f : Impl) (b : Bool) (s : S)
      → (get_core k).pc (spike.set_impl h f b s) ≡ (get_core k).pc s
  pub impl_set :
      (h k : ℕ) (f g : Impl) (b : Bool) (s : S)
      → has_impl k g (spike.set_impl h f b s)
        ≡ (if (k == h) && same_impl g f then b else has_impl k g s)
  pub pc_erase : (h k n : ℕ) (s : S) → (get_core k).pc (spike.erase_csr h n s) ≡ (get_core k).pc s
  pub impl_erase :
      (h k n : ℕ) (f : Impl) (s : S) → has_impl k f (spike.erase_csr h n s) ≡ has_impl k f s

-- What the loop is to give a core.
abbrev pub wanted : ℕ → Impl → Bool
wanted maxpglevels sv48 = leb 4 maxpglevels
wanted maxpglevels sv57 = leb 5 maxpglevels
wanted maxpglevels asid = false

set_wanted :
    (levels : ℕ) (f : Impl) (b : Bool)
    → (if same_impl f asid
        then false
        else if same_impl f sv57
        then leb 5 levels
        else if same_impl f sv48
        then leb 4 levels
        else b)
      ≡ wanted levels f
set_wanted levels sv48 b = refl
set_wanted levels sv57 b = refl
set_wanted levels asid b = refl

module _ {S : Type 0} (spike : Spike S) (get_core : ℕ → Core S)
    (laws : CoresLaws spike get_core) where
  open laws use {has_impl, pc_write, impl_write, pc_set, impl_set, pc_erase, impl_erase}

  -- A core that is set up
  abbrev pub IsConfigured : ℕ → ℕ → S → Type 0
  IsConfigured h levels s =
      ((get_core h).pc s ≡ 0x10000) × ((f : Impl) → has_impl h f s ≡ wanted levels f)

  -- A core that is as it was
  abbrev pub IsUntouched : ℕ → S → S → Type 0
  IsUntouched k s s' =
      ((get_core k).pc s' ≡ (get_core k).pc s) × ((f : Impl) → has_impl k f s' ≡ has_impl k f s)

  configure_core-pc :
      (h k levels : ℕ) (s : S)
      → (get_core k).pc (configure_core spike get_core h levels s)
        ≡ (if k == h then 0x10000 else (get_core k).pc s)
  unfolding configure_core
  configure_core-pc h k levels s =
      rw
        (
          pc_erase h k 0xc01 _,
          pc_set h k asid false _,
          pc_set h k sv57 (leb 5 levels) _,
          pc_set h k sv48 (leb 4 levels) _,
          pc_write h k 0x10000 s,
        )
        refl

  configure_core-impl :
      (h k levels : ℕ) (f : Impl) (s : S)
      → has_impl k f (configure_core spike get_core h levels s)
        ≡ (if k == h then wanted levels f else has_impl k f s)
  unfolding configure_core
  configure_core-impl h k levels f s = elim (Bool-cases (k == h)) [
    | inl e ↦
        rw
          (
            impl_erase h k 0xc01 f _,
            impl_set h k asid f false _,
            impl_set h k sv57 f (leb 5 levels) _,
            impl_set h k sv48 f (leb 4 levels) _,
            impl_write h k 0x10000 f s,
            e,
          )
          (set_wanted levels f (has_impl k f s))
    | inr e ↦
        rw
          (
            impl_erase h k 0xc01 f _,
            impl_set h k asid f false _,
            impl_set h k sv57 f (leb 5 levels) _,
            impl_set h k sv48 f (leb 4 levels) _,
            impl_write h k 0x10000 f s,
            e,
          )
          refl
  ]

  configure_core-IsConfigured :
      (h levels : ℕ) (s : S) → IsConfigured h levels (configure_core spike get_core h levels s)
  configure_core-IsConfigured h levels s =
      let here : (h == h) ≡ true = ground arith in
      (
        configure_core-pc h h levels s ∙ rw here refl,
        λ f. configure_core-impl h h levels f s ∙ rw here refl,
      )

  configure_core-IsUntouched :
      (h k levels : ℕ) (s : S) → k ≢ h → IsUntouched k s (configure_core spike get_core h levels s)
  configure_core-IsUntouched h k levels s other =
      let apart_ : (k == h) ≡ false = ground arith in
      (
        configure_core-pc h k levels s ∙ rw apart_ refl,
        λ f. configure_core-impl h k levels f s ∙ rw apart_ refl,
      )

  -- Whatever the number of harts: another core is untouched.
  configure_cores-IsUntouched :
      (h k levels n : ℕ) (s : S)
      → k ≢ h
      → IsUntouched k s (configure_cores spike get_core h levels n s)
  unfolding configure_cores
  configure_cores-IsUntouched h k levels zero s other = (refl, λ f. refl)
  configure_cores-IsUntouched h k levels (suc n) s other =
      let s₁ = configure_core spike get_core h levels s in
      let (p, q) = configure_core-IsUntouched h k levels s other in
      let (p', q') = configure_cores-IsUntouched h k levels n s₁ other in (p' ∙ p, λ f. q' f ∙ q f)

  configure_cores-IsConfigured :
      (h levels n : ℕ) (s : S)
      → IsConfigured h levels s
      → IsConfigured h levels (configure_cores spike get_core h levels n s)
  unfolding configure_cores
  configure_cores-IsConfigured h levels zero s done_ = done_
  configure_cores-IsConfigured h levels (suc n) s done_ =
      configure_cores-IsConfigured h levels n (configure_core spike get_core h levels s)
        (configure_core-IsConfigured h levels s)

  -- With at least one hart, and setters that change what they name of their own core only, the
  -- loop sets up the core of the hart whose call it is (the address after reset and the three
  -- features of its MMU) and no other core: the address and the features of any other core,
  -- whatever the number of harts, are as before.
  pub configure_cores-one :
      (h k levels n : ℕ) (s : S)
      → 0 < n
      → k ≢ h
      → IsConfigured h levels (configure_cores spike get_core h levels n s)
        × IsUntouched k s (configure_cores spike get_core h levels n s)
  unfolding configure_cores
  configure_cores-one h k levels zero s pos other = absurd (omega arith)
  configure_cores-one h k levels (suc n) s pos other = (
    configure_cores-IsConfigured h levels n (configure_core spike get_core h levels s)
        (configure_core-IsConfigured h levels s),
    configure_cores-IsUntouched h k levels (suc n) s other,
  )
