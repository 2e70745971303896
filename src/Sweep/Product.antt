-- ===== src/Sweep/Product.antt =====
-- `Permute` of example/sweep/sweep.go against a filter of the whole product of its dimensions.
use cloudlus.Base.{
  ℕ, zero, suc, ◌≡◌, refl, ap, ◌∙◌, Bool, true, false, not, ◌&&◌, some, List, [], ◌∷◌, ◌++◌, map,
  keep, length, range_from, Bool-cases, inl, inr,
}
use mathlib.Core.List.{append_assoc, map-append}
use cloudlus.Sweep.{branches, permute_from, permute}

-- Each of some numbers before each of some lists.
unfoldable pub spread : List (List ℕ) → List ℕ → List (List ℕ)
spread ps [] = []
spread ps (i ∷ is) = map (◌∷◌ i) ps ++ spread ps is

-- All points, in the order of the first numbers, then of the second ones, and so on.
unfoldable pub product : ℕ → List ℕ → List (List ℕ)
unfolding spread
product n [] = spread ([] ∷ []) (range_from 0 n)
product n (m ∷ ms) = spread (product m ms) (range_from 0 n)

-- Whether none of the beginnings of a point is skipped that have one number, two numbers, and so on,
-- up to the given count; `prefix` stands before the point.
unfoldable pub admits : (List ℕ → Bool) → ℕ → List ℕ → List ℕ → Bool
admits skip zero prefix p = true
admits skip (suc k) prefix [] = true
admits skip (suc k) prefix (i ∷ p) =
    not (skip (prefix ++ (i ∷ []))) && admits skip k (prefix ++ (i ∷ [])) p

keep-append {ℓ} :
    {A : Type ℓ} (p : A → Bool) (xs ys : List A) → keep p (xs ++ ys) ≡ keep p xs ++ keep p ys
unfolding keep
keep-append p [] ys = refl
keep-append p (x ∷ xs) ys = elim (Bool-cases (p x)) [
  | inl e ↦ rw (e, keep-append p xs ys) refl
  | inr e ↦ rw (e, keep-append p xs ys) refl
]

module _ (skip : List ℕ → Bool) where
  -- The points behind a number that is skipped, and behind one that is not.
  keep_skipped :
      (k : ℕ) (prefix : List ℕ) (i : ℕ) (ps : List (List ℕ))
      → skip (prefix ++ (i ∷ [])) ≡ true
      → keep (admits skip (suc k) prefix) (map (◌∷◌ i) ps) ≡ []
  unfolding keep admits
  keep_skipped k prefix i [] h = refl
  keep_skipped k prefix i (p ∷ ps) h = rw (keep, admits, h) (keep_skipped k prefix i ps h)

  keep_branch :
      (k : ℕ) (prefix : List ℕ) (i : ℕ) (ps : List (List ℕ))
      → skip (prefix ++ (i ∷ [])) ≡ false
      → map (λ p. prefix ++ p) (keep (admits skip (suc k) prefix) (map (◌∷◌ i) ps))
        ≡ map (λ p. (prefix ++ (i ∷ [])) ++ p) (keep (admits skip k (prefix ++ (i ∷ []))) ps)
  unfolding keep admits
  keep_branch k prefix i [] h = refl
  keep_branch k prefix i (p ∷ ps) h = elim (Bool-cases (admits skip k (prefix ++ (i ∷ [])) p)) [
    | inl e ↦ rw (keep, admits, h, e, keep_branch k prefix i ps h, append_assoc) refl
    | inr e ↦ rw (keep, admits, h, e) (keep_branch k prefix i ps h)
  ]

  leaves-product :
      (prefix is : List ℕ)
      → map (λ i. prefix ++ (i ∷ [])) is
        ≡ map (λ p. prefix ++ p) (keep (admits skip 0 prefix) (spread ([] ∷ []) is))
  unfolding keep admits spread
  leaves-product prefix [] = refl
  leaves-product prefix (i ∷ is) = ap (◌∷◌ (prefix ++ (i ∷ []))) (leaves-product prefix is)

  branches-product :
      (rest : List ℕ → List (List ℕ)) (k : ℕ) (ps : List (List ℕ))
      → ((q : List ℕ) → rest q ≡ map (λ p. q ++ p) (keep (admits skip k q) ps))
      → (prefix is : List ℕ)
      → branches skip rest prefix is
        ≡ map (λ p. prefix ++ p) (keep (admits skip (suc k) prefix) (spread ps is))
  unfolding branches spread keep
  branches-product rest k ps h prefix [] = refl
  branches-product rest k ps h prefix (i ∷ is) = elim (Bool-cases (skip (prefix ++ (i ∷ [])))) [
    | inl e ↦
        rw
          (
            branches,
            e,
            keep-append (admits skip (suc k) prefix) (map (◌∷◌ i) ps) (spread ps is),
            keep_skipped k prefix i ps e,
          )
          (branches-product rest k ps h prefix is)
    | inr e ↦
        rw
          (
            branches,
            e,
            keep-append (admits skip (suc k) prefix) (map (◌∷◌ i) ps) (spread ps is),
            map-append,
            keep_branch k prefix i ps e,
            h,
            branches-product rest k ps h prefix is,
          )
          refl
  ]

  permute_from-product :
      (n : ℕ) (ms prefix : List ℕ)
      → permute_from skip n ms prefix
        ≡ map (λ p. prefix ++ p) (keep (admits skip (length ms) prefix) (product n ms))
  unfolding permute_from product
  permute_from-product n [] prefix = leaves-product prefix (range_from 0 n)
  permute_from-product n (m ∷ ms) prefix =
      branches-product (λ q. permute_from skip m ms q) (length ms) (product m ms)
        (λ q. permute_from-product m ms q) prefix (range_from 0 n)

  map_id : (ps : List (List ℕ)) → map (λ p. [] ++ p) ps ≡ ps
  map_id [] = refl
  map_id (p ∷ ps) = ap (◌∷◌ p) (map_id ps)

  pub permute_from_lem :
      (n : ℕ) (ms : List ℕ)
      → permute_from skip n ms [] ≡ keep (admits skip (length ms) []) (product n ms)
  permute_from_lem n ms = permute_from-product n ms [] ∙ map_id _

  -- `Permute` gives, in lexicographic order, the points of the whole product that have no skipped
  -- beginning among those with one number up to those with all numbers but the last one.
  pub permute-product :
      (n : ℕ) (ms : List ℕ)
      → permute skip (n ∷ ms) ≡ some (keep (admits skip (length ms) []) (product n ms))
  unfolding permute
  permute-product n ms = ap some (permute_from_lem n ms)
