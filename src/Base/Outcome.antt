-- ===== src/Base/Outcome.antt =====
-- The outcome of a fallible Rust call: a value, an error that is handed back, or a panic.
use mathlib.Core.Path.{◌≡◌, refl}
use mathlib.Core.Option.{Option, none, some}

pub data Outcome {ℓ κ} (E : Type ℓ) (A : Type κ) : Type (ℓ ⊔ κ) where
  panicked : Outcome E A
  failed : E → Outcome E A
  done : A → Outcome E A

infixl 5 ◌>>=◌
abbrev pub ◌>>=◌ {ℓ κ κ'} :
    {E : Type ℓ} {A : Type κ} {B : Type κ'} → Outcome E A → (A → Outcome E B) → Outcome E B
panicked >>= rest = panicked
failed e >>= rest = failed e
done x >>= rest = rest x

-- `v[i]`, and `.unwrap()` of an option.
abbrev pub expect {ℓ κ} : {E : Type ℓ} {A : Type κ} → Option A → Outcome E A
expect none = panicked
expect (some x) = done x

-- `.ok_or(e)`.
abbrev pub ok_or {ℓ κ} : {E : Type ℓ} {A : Type κ} → Option A → E → Outcome E A
ok_or none e = failed e
ok_or (some x) e = done x

-- A chain that is done is done with its first call.
pub chain_done {ℓ κ κ'} :
    {E : Type ℓ} {A : Type κ} {B : Type κ'} (call : Outcome E A) (rest : A → Outcome E B)
    {result : B}
    → (call >>= rest) ≡ done result
    → (x : A) × (call ≡ done x) × (rest x ≡ done result)
chain_done (done x) rest finished = (x, refl, finished)
chain_done (failed e) rest finished = cc
chain_done panicked rest finished = cc

-- Of a result that is handed back.
abbrev pub Holds : {E A : Type 0} → (A → Type 0) → Outcome E A → Type 0
Holds P panicked = Unit
Holds P (failed e) = Unit
Holds P (done x) = P x

pub Holds-chain :
    {E A B : Type 0} (P : A → Type 0) (Q : B → Type 0) (o : Outcome E A) (h : A → Outcome E B)
    → Holds P o
    → ((a : A) → P a → Holds Q (h a))
    → Holds Q (o >>= h)
Holds-chain P Q panicked h held next = tt
Holds-chain P Q (failed e) h held next = tt
Holds-chain P Q (done a) h held next = next a held

pub Holds-weaken :
    {E A : Type 0} (P Q : A → Type 0) (o : Outcome E A)
    → ((a : A) → P a → Q a)
    → Holds P o
    → Holds Q o
Holds-weaken P Q panicked f held = tt
Holds-weaken P Q (failed e) f held = tt
Holds-weaken P Q (done a) f held = f a held

-- Whatever the first call gives.
pub Holds-after :
    {E A B : Type 0} (Q : B → Type 0) (o : Outcome E A) (h : A → Outcome E B)
    → ((a : A) → Holds Q (h a))
    → Holds Q (o >>= h)
Holds-after Q panicked h next = tt
Holds-after Q (failed e) h next = tt
Holds-after Q (done a) h next = next a

-- Chains that go on alike are alike.
pub chain_alike {ℓ κ κ'} :
    {E : Type ℓ} {A : Type κ} {B : Type κ'} (call : Outcome E A) (f g : A → Outcome E B)
    → ((x : A) → f x ≡ g x)
    → (call >>= f) ≡ (call >>= g)
chain_alike panicked f g alike = refl
chain_alike (failed e) f g alike = refl
chain_alike (done x) f g alike = alike x
