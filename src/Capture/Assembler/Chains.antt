-- ===== src/Capture/Assembler/Chains.antt =====
-- Chains of calls that each return something with a property.
use packet_lab.Prelude.{◌≡◌, refl, Bool, true, false, Option, none, some, if◌then◌else◌}
use packet_lab.Capture.Stream.{Engine, TcpStream}
use packet_lab.Capture.Stream.Ends.{Returns}

-- the code returns, with the property
abbrev pub Yields {ℓ} : {A : Type ℓ} → (A → Type 0) → Option A → Type 0
Yields P none = ⊥
Yields P (some a) = P a

-- the next step of a chain
pub then-Yields :
    {B : Type 0} (P : TcpStream → Engine → Type 0) (Q : B → Type 0)
    (o : Option (TcpStream × Engine)) (f : TcpStream → Engine → Option B)
    → Returns P o
    → ((s : TcpStream) (e : Engine) → P s e → Yields Q (f s e))
    → Yields Q (elim o [ none ↦ none | some (s, e) ↦ f s e ])
then-Yields P Q none f h k = absurd h
then-Yields P Q (some (s, e)) f h k = k s e h

pub if-Yields :
    {B : Type 0} (Q : B → Type 0) (b : Bool) (x y : Option B)
    → Yields Q x
    → Yields Q y
    → Yields Q (if b then x else y)
if-Yields Q true x y h k = h
if-Yields Q false x y h k = k

pub if-has {ℓ} :
    {A : Type ℓ} (Q : A → Type 0) (b : Bool) (x y : A) → Q x → Q y → Q (if b then x else y)
if-has Q true x y h k = h
if-has Q false x y h k = k

pub both :
    (P Q : TcpStream → Engine → Type 0) (o : Option (TcpStream × Engine))
    → Returns P o
    → Returns Q o
    → Returns (λ s e. P s e × Q s e) o
both P Q none h k = h
both P Q (some (s, e)) h k = (h, k)

pub step-Yields {ℓ κ} :
    {A : Type ℓ} {B : Type κ} (P : A → Type 0) (Q : B → Type 0) (o : Option A) (f : A → Option B)
    → Yields P o
    → ((a : A) → P a → Yields Q (f a))
    → Yields Q (elim o [ none ↦ none | some a ↦ f a ])
step-Yields P Q none f h k = absurd h
step-Yields P Q (some a) f h k = k a h

-- a test whose answer the branches know
pub test-Yields {ℓ} :
    {B : Type ℓ} (Q : B → Type 0) (b : Bool) (x y : Option B)
    → (b ≡ true → Yields Q x)
    → (b ≡ false → Yields Q y)
    → Yields Q (if b then x else y)
test-Yields Q true x y h k = h refl
test-Yields Q false x y h k = k refl
