-- ===== src/Scen/Entries.antt =====
-- The entries of the slices of scen/scenario.go: a read or a write out of range panics.
use cloudlus.Base.{
  Bool-cases, inl, inr, if◌then◌else◌, length-set, true, get_or, ℕ, zero, suc, ◌<◌, ◌≡◌, refl, ap,
  ◌∙◌, List, [], ◌∷◌, length, set, ltb, arith,
}
use cloudlus.Scen.Check.{Result, ok, err, panic, ◌>>=◌}

-- `xs[i]`
unfoldable pub entry : {A : Type 0} → List A → ℕ → Result A
entry [] i = panic
entry (x ∷ xs) zero = ok x
entry (x ∷ xs) (suc i) = entry xs i

-- `xs[i] = v`
unfoldable pub put_entry : {A : Type 0} → List A → ℕ → A → Result (List A)
put_entry xs i v = if ltb i (length xs) then ok (set xs i v) else panic

pub entry-lt : {A : Type 0} (xs : List A) (i : ℕ) → i < length xs → (a : A) × (entry xs i ≡ ok a)
unfolding entry
entry-lt [] i h = absurd (omega arith)
entry-lt (x ∷ xs) zero h = (x, refl)
entry-lt (x ∷ xs) (suc i) h = entry-lt xs i (omega arith)

pub put_entry-lt :
    {A : Type 0} (xs : List A) (i : ℕ) (v : A)
    → i < length xs
    → (ys : List A) × (put_entry xs i v ≡ ok ys) × (length ys ≡ length xs)
unfolding put_entry
put_entry-lt xs i v h = (set xs i v, rw (below i (length xs) h) refl, length-set xs i v)
  where
    below : (i n : ℕ) → i < n → ltb i n ≡ true
    below i n h = ground arith

pub ok-put_entry :
    {A : Type 0} (xs : List A) (i : ℕ) (v : A) (ys : List A)
    → put_entry xs i v ≡ ok ys
    → set xs i v ≡ ys
unfolding put_entry
ok-put_entry {A = A} xs i v ys h = elim (Bool-cases (ltb i (length xs))) [
  | inl e ↦ same _ ys (rw (put_entry, e) at h)
  | inr e ↦ absurd (never (rw (put_entry, e) at h))
]
  where
    same : (a b : List A) → ok a ≡ ok b → a ≡ b
    same a b h = cc

    failing : Result (List A)
    failing = panic

    never : failing ≡ ok ys → ⊥
    never q = cc

pub ok-entry :
    {A : Type 0} (d : A) (xs : List A) (i : ℕ) (a : A) → entry xs i ≡ ok a → get_or d xs i ≡ a
unfolding entry
ok-entry d [] i a h = absurd cc
ok-entry d (x ∷ xs) zero a h = cc
ok-entry d (x ∷ xs) (suc i) a h = ok-entry d xs i a h

-- What a chain of calls that succeeds went through.
pub ok->>= :
    {A B : Type 0} (r : Result A) (f : A → Result B) (b : B)
    → (r >>= f) ≡ ok b
    → (a : A) × (r ≡ ok a) × (f a ≡ ok b)
ok->>= (ok a) f b h = (a, refl, h)
ok->>= (err e) f b h = absurd cc
ok->>= panic f b h = absurd cc

-- A call that succeeds, followed by one that does.
pub >>=-ok :
    {A B : Type 0} (r : Result A) (f : A → Result B) (a : A) (b : B)
    → r ≡ ok a
    → f a ≡ ok b
    → (r >>= f) ≡ ok b
>>=-ok r f a b h k = ap (λ r. r >>= f) h ∙ k
