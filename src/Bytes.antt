-- ===== src/Bytes.antt =====
-- Results of the byte readers of src/wasm/sections.ts and src/dwarf/cursor.ts, and slices of a
-- buffer. A thrown error is a value; its message is left out.
use stellar_debugger.Prelude.{
  ◌≢◌, Bool, true, false, if◌then◌else◌, ℕ, zero, suc, ◌+◌, ◌-◌, ◌≤◌, ◌≡◌, refl, sym, ap, ◌∙◌, List,
  [], ◌∷◌, ◌++◌, take, drop, take-append-drop, arith,
}

pub data Result (E A : Type 0) : Type 0 where
  ok : A → Result E A
  fail : E → Result E A

infixl 5 ◌>>=◌
abbrev pub ◌>>=◌ : {E A B : Type 0} → Result E A → (A → Result E B) → Result E B
ok a >>= f = f a
fail e >>= f = fail e

-- The result satisfies `P`, or is an error other than `bad`.
abbrev pub Yields : {E A : Type 0} → E → (A → Type 0) → Result E A → Type 0
Yields bad P (ok a) = P a
Yields bad P (fail e) = e ≢ bad

pub >>=-Yields :
    {E A B : Type 0} (bad : E) (P : A → Type 0) (Q : B → Type 0) (m : Result E A)
    (f : A → Result E B)
    → Yields bad P m
    → ((a : A) → P a → Yields bad Q (f a))
    → Yields bad Q (m >>= f)
>>=-Yields bad P Q (ok a) f h k = k a h
>>=-Yields bad P Q (fail e) f h k = h

pub if-Yields :
    {E A : Type 0} (bad : E) (P : A → Type 0) (b : Bool) (x y : Result E A)
    → Yields bad P x
    → (b ≡ false → Yields bad P y)
    → Yields bad P (if b then x else y)
if-Yields bad P true x y h k = h
if-Yields bad P false x y h k = k refl

-- `bytes.subarray(start, end)`
abbrev pub subarray : List ℕ → ℕ → ℕ → List ℕ
subarray bytes start end = take (end - start) (drop start bytes)

drop-nil : (n : ℕ) → drop {A = ℕ} n [] ≡ []
drop-nil zero = refl
drop-nil (suc n) = refl

pub drop-drop : (m n : ℕ) (xs : List ℕ) → drop n (drop m xs) ≡ drop (m + n) xs
drop-drop zero n xs = ap (λ k. drop k xs) (omega arith)
drop-drop (suc m) n [] = drop-nil n ∙ sym (drop-nil (suc m + n))
drop-drop (suc m) n (x ∷ xs) =
    drop-drop m n xs ∙ ap (λ k. drop k (x ∷ xs)) {x = suc (m + n)} {y = suc m + n} (omega arith)

-- A slice and what follows it.
pub subarray-append_drop :
    (xs : List ℕ) (a b : ℕ) → a ≤ b → subarray xs a b ++ drop b xs ≡ drop a xs
subarray-append_drop xs a b h =
    ap (λ l. subarray xs a b ++ l)
      (ap (λ k. drop k xs) (omega arith) ∙ sym (drop-drop a (b - a) xs))
    ∙ take-append-drop (b - a) (drop a xs)

-- What the first step of a chain gives, where the chain succeeds.
pub first_step :
    {E A B : Type 0} (f : A → Result E B) (m : Result E A) {last : B}
    → (m >>= f) ≡ ok last
    → (value : A) × (f value ≡ ok last) × (m ≡ ok value)
first_step f (fail e) h = cc
first_step f (ok value) h = (value, h, refl)
