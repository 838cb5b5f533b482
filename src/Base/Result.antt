-- ===== src/Base/Result.antt =====
-- How a piece of the program ends: with a value, or stopped.
use mathlib.Core.Path.{◌≡◌, refl}
use mathlib.Core.Bool.{Bool, true, false}
use Prim.Native.Nat.{ℕ}
use uart_tsi.Base.Tests.{if◌then◌else◌}

-- `exit(n)`, `abort()` or a failed `assert`, a C++ exception, behaviour that C++ leaves undefined,
-- and a wait for an event of the environment beyond those given (or for more fuel).
pub data Stop : Type 0 where
  exited : ℕ → Stop
  aborted threw undefined starved : Stop

pub data Run {ℓ} (A : Type ℓ) : Type ℓ where
  done : A → Run A
  stop : Stop → Run A

infixl 5 ◌>>=◌ ◌>>◌
abbrev pub ◌>>=◌ {ℓ κ} : {A : Type ℓ} {B : Type κ} → Run A → (A → Run B) → Run B
done a >>= f = f a
stop s >>= f = stop s

abbrev pub ◌>>◌ {ℓ} : {B : Type ℓ} → Run (Unit {0}) → Run B → Run B
m >> k = m >>= λ _. k

-- `if (!ok) stop`
abbrev pub check : Bool → Stop → Run (Unit {0})
check true s = done tt
check false s = stop s

pub >>=-eq-done {ℓ κ} :
    {A : Type ℓ} {B : Type κ} (m : Run A) (f : A → Run B) {b : B}
    → (m >>= f) ≡ done b
    → (a : A) × (m ≡ done a) × (f a ≡ done b)
>>=-eq-done (done a) f h = (a, refl, h)
>>=-eq-done (stop s) f h = cc

pub done-injective {ℓ} : {A : Type ℓ} {a b : A} → done a ≡ done b → a ≡ b
done-injective h = cc

-- A test that stops, and what follows from its being passed.
pub if-eq-done {ℓ} :
    {A : Type ℓ} (b : Bool) (s : Stop) (m : Run A) {a : A}
    → (if b then stop s else m) ≡ done a
    → (b ≡ false) × (m ≡ done a)
if-eq-done true s m h = cc
if-eq-done false s m h = (refl, h)

pub check-done : (b : Bool) (s : Stop) {u : Unit {0}} → check b s ≡ done u → b ≡ true
check-done true s h = refl
check-done false s h = cc

pub >>=-congr {ℓ κ} :
    {A : Type ℓ} {B : Type κ} (m : Run A) {f g : A → Run B}
    → ((a : A) → f a ≡ g a)
    → (m >>= f) ≡ (m >>= g)
>>=-congr (done a) h = h a
>>=-congr (stop s) h = refl

pub >>=_assoc {ℓ κ ι} :
    {A : Type ℓ} {B : Type κ} {C : Type ι} (m : Run A) (f : A → Run B) (g : B → Run C)
    → (m >>= f >>= g) ≡ (m >>= λ a. f a >>= g)
>>=_assoc (done a) f g = refl
>>=_assoc (stop s) f g = refl
