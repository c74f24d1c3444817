-- ===== src/Prelude/Bytes.antt =====
-- Little-endian bytes, and readers that take them from the front of a buffer: the state of a reader
-- is the bytes that it has not taken, and `none` is a buffer that is too short or a refusal.
use Prim.Native.Nat.{ℕ, zero, suc, ◌+◌, ◌*◌, ◌/◌, ◌%◌, ◌^◌, ◌<◌}
use mathlib.Core.Path.{◌≡◌, ap}
use mathlib.Core.Logic.{inl, inr}
use mathlib.Core.Bool.{Bool, true, false}
use mathlib.Core.Option.{Option, none, some}
use mathlib.Core.List.{List, [], ◌∷◌, ◌++◌}
use native.Mathlib.Omega.{arith}
use luminal_vgd.Prelude.Tests.{Option-cases}

abbrev pub Bytes : Type 0
Bytes = List ℕ

-- `to_le_bytes` of a number of `n` bytes
unfoldable pub to_le_bytes : ℕ → ℕ → Bytes
to_le_bytes zero v = []
to_le_bytes (suc n) v = v % 256 ∷ to_le_bytes n (v / 256)

abbrev pub Reader {ℓ} : Type ℓ → Type ℓ
Reader A = Bytes → Option (A × Bytes)

abbrev pub pure {ℓ} : {A : Type ℓ} → A → Reader A
pure a r = some (a, r)

infixl 5 ◌>>=◌ ◌>>◌
abbrev pub ◌>>=◌ {ℓ κ} : {A : Type ℓ} {B : Type κ} → Reader A → (A → Reader B) → Reader B
◌>>=◌ m f r = elim (m r) [ none ↦ none | some (a, r') ↦ f a r' ]

abbrev pub ◌>>◌ {ℓ} : {B : Type ℓ} → Reader (Unit {0}) → Reader B → Reader B
m >> k = m >>= λ _. k

-- `if b { return None; }`
abbrev pub refuse_when : Bool → Reader (Unit {0})
refuse_when true r = none
refuse_when false r = some (tt, r)

-- `from_le_bytes` of the next `n` bytes
unfoldable pub from_le_bytes : ℕ → Reader ℕ
from_le_bytes zero r = some (0, r)
from_le_bytes (suc n) [] = none
from_le_bytes (suc n) (b ∷ r) = elim (from_le_bytes n r) [
  | none ↦ none
  | some (v, r') ↦ some (b + 256 * v, r')
]

-- The same reader `n` times.
unfoldable pub times {ℓ} : {A : Type ℓ} → ℕ → Reader A → Reader (List A)
times zero f r = some ([], r)
times (suc n) f r = elim (f r) [
  | none ↦ none
  | some (a, r') ↦ elim (times n f r') [ none ↦ none | some (as', r'') ↦ some (a ∷ as', r'') ]
]

-- `n` bytes are enough for the number.
abbrev pub Fits : ℕ → ℕ → Type 0
Fits zero v = v ≡ 0
Fits (suc n) v = Fits n (v / 256)

-- What `n` bytes of a number read back to.
pub from-to_le_bytes :
    (n v : ℕ) (rest : Bytes) → Fits n v → from_le_bytes n (to_le_bytes n v ++ rest) ≡ some (v, rest)
unfolding from_le_bytes to_le_bytes
from-to_le_bytes zero v rest h = ap (λ k. some (k, rest)) (omega arith)
from-to_le_bytes (suc n) v rest h =
    let e = from-to_le_bytes n (v / 256) rest h in rw e (ap (λ k. some (k, rest)) (omega arith))

pub Fits-2 : (v : ℕ) → v < 2 ^ 16 → Fits 2 v
Fits-2 v h = omega arith

pub Fits-4 : (v : ℕ) → v < 2 ^ 32 → Fits 4 v
Fits-4 v h = omega arith

pub Fits-8 : (v : ℕ) → v < 2 ^ 64 → Fits 8 v
Fits-8 v h = omega arith

-- A reader that does not look at what it does not take.
abbrev pub IsLocal {ℓ} : {A : Type ℓ} → Reader A → Type ℓ
IsLocal {A = A} f =
    (r : Bytes) (a : A) (r' more : Bytes)
    → f r ≡ some (a, r')
    → f (r ++ more) ≡ some (a, r' ++ more)

pub pure-IsLocal {ℓ} : {A : Type ℓ} (a : A) → IsLocal (pure a)
pure-IsLocal a r b r' more e = cc

pub refuse_when-IsLocal : (b : Bool) → IsLocal (refuse_when b)
refuse_when-IsLocal true r a r' more e = cc
refuse_when-IsLocal false r a r' more e = cc

pub bind-IsLocal {ℓ κ} :
    {A : Type ℓ} {B : Type κ} (m : Reader A) (f : A → Reader B)
    → IsLocal m
    → ((a : A) → IsLocal (f a))
    → IsLocal (m >>= f)
bind-IsLocal m f lm lf r b r' more e = elim (Option-cases (m r)) [
  | inl short ↦ let clash = rw (short, ◌>>=◌) at e in cc
  | inr ((a, mid), found) ↦
      rw (lm r a mid more found, ◌>>=◌) (lf a mid b r' more (rw (found, ◌>>=◌) at e))
]

pub from_le_bytes-IsLocal : (n : ℕ) → IsLocal (from_le_bytes n)
unfolding from_le_bytes
from_le_bytes-IsLocal zero r a r' more e = cc
from_le_bytes-IsLocal (suc n) [] a r' more e = cc
from_le_bytes-IsLocal (suc n) (b ∷ r) a r' more e = elim (Option-cases (from_le_bytes n r)) [
  | inl short ↦ let clash = rw (short, from_le_bytes) at e in cc
  | inr ((v, mid), found) ↦
      let e' = rw (found, from_le_bytes) at e in
      rw (from_le_bytes-IsLocal n r v mid more found, from_le_bytes) cc
]

pub times-IsLocal {ℓ} : {A : Type ℓ} (n : ℕ) (f : Reader A) → IsLocal f → IsLocal (times n f)
unfolding times
times-IsLocal zero f l r a r' more e = cc
times-IsLocal (suc n) f l r a r' more e = elim (Option-cases (f r)) [
  | inl short ↦ let clash = rw (short, times) at e in cc
  | inr ((x, mid), found) ↦
      let e' = rw (found, times) at e in
      elim (Option-cases (times n f mid)) [
        | inl short ↦ let clash = rw (short, times) at e' in cc
        | inr ((xs, last), more_found) ↦
            let e'' = rw (more_found, times) at e' in
            rw (l r x mid more found, times-IsLocal n f l mid xs last more more_found, times) cc
      ]
]
