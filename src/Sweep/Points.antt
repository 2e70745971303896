-- ===== src/Sweep/Points.antt =====
-- The points that `buildSweep` of example/sweep/sweep.go makes.
use cloudlus.Base.{
  ℕ, zero, suc, ◌+◌, ◌-◌, ◌≤◌, ◌<◌, ◌≡◌, refl, sym, ap, Bool, true, false, not, ◌&&◌, some, List,
  [], ◌∷◌, ◌++◌, map, keep, set, length, range_from, All, All-append, ltb, arith, Bool-cases, inl,
  inr,
}
use mathlib.Core.Path.{subst}
use mathlib.Core.List.{append_assoc}
use cloudlus.Base.Int.{ℤ, pos, sub_ℕ}
use cloudlus.Sweep.{
  take, drop, total, clip, sum_checked, sum_range, skip_sums, permute_from, dimensions, balance,
  build_sweep,
}
use cloudlus.Sweep.Product.{spread, product, admits, permute_from_lem}

-- `Sum` does not panic if its lower bound is not above its upper one.
clip_mono : (l u n : ℕ) → l ≤ u → ltb (clip u n) (clip l n) ≡ false
unfolding clip
clip_mono l u n h = ground arith

pub sum_checked-sum_range :
    (s : List ℕ) (l u : ℕ) → l ≤ u → sum_checked s l u ≡ some (sum_range s l u)
unfolding sum_checked sum_range
sum_checked-sum_range s l u h = rw (clip_mono l u (length s) h) refl

-- A point with one number below each dimension.
pub data Within : List ℕ → List ℕ → Type 0 where
  none_left : Within [] []
  entry : {i n : ℕ} {p ns : List ℕ} → i < n → Within p ns → Within (i ∷ p) (n ∷ ns)

map-Within :
    (i n : ℕ) (ns : List ℕ) (ps : List (List ℕ))
    → i < n
    → All (λ p. Within p ns) ps
    → All (λ p. Within p (n ∷ ns)) (map (◌∷◌ i) ps)
map-Within i n ns [] h w = tt
map-Within i n ns (p ∷ ps) h w = (entry h w.0, map-Within i n ns ps h w.1)

spread-Within :
    (ns : List ℕ) (ps : List (List ℕ)) (i n m : ℕ)
    → i + m ≡ n
    → All (λ p. Within p ns) ps
    → All (λ p. Within p (n ∷ ns)) (spread ps (range_from i m))
unfolding spread
spread-Within ns ps i n zero h w = tt
spread-Within ns ps i n (suc m) h w =
    All-append _ (map (◌∷◌ i) ps) (spread ps (range_from (suc i) m))
      (map-Within i n ns ps (omega arith) w) (spread-Within ns ps (suc i) n m (omega arith) w)

product-Within : (n : ℕ) (ms : List ℕ) → All (λ p. Within p (n ∷ ms)) (product n ms)
unfolding product
product-Within n [] = spread-Within [] ([] ∷ []) 0 n n (omega arith) (none_left, tt)
product-Within n (m ∷ ms) =
    spread-Within (m ∷ ms) (product m ms) 0 n n (omega arith) (product-Within m ms)

-- What holds of a point that the loop reaches holds of all that it keeps.
keep-All {κ} :
    (P : List ℕ → Type κ) (Q : List ℕ → Type 0) (test : List ℕ → Bool)
    → ((p : List ℕ) → Q p → test p ≡ true → P p)
    → (ps : List (List ℕ)) → All Q ps
    → All P (keep test ps)
unfolding keep
keep-All P Q test h [] w = tt
keep-All P Q test h (p ∷ ps) w = elim (Bool-cases (test p)) [
  | inl e ↦ rw e (h p w.0 e, keep-All P Q test h ps w.1)
  | inr e ↦ rw e (keep-All P Q test h ps w.1)
]

both : (b c : Bool) → (not b && c) ≡ true → (b ≡ false) × (c ≡ true)
both true c h = cc
both false c h = (refl, h)

-- The beginnings that are tested.
admits-take :
    (skip : List ℕ → Bool) (k j : ℕ) (prefix p : List ℕ)
    → j < k
    → j < length p
    → admits skip k prefix p ≡ true
    → skip (prefix ++ take (suc j) p) ≡ false
unfolding admits take
admits-take skip zero j prefix p h n a = elim h [ ]
admits-take skip (suc k) j prefix [] h n a = elim n [ ]
admits-take skip (suc k) zero prefix (i ∷ p) h n a = (both _ _ a).0
admits-take skip (suc k) (suc j) prefix (i ∷ p) h n a =
    subst (λ (q : List ℕ). skip q ≡ false) (append_assoc prefix (i ∷ []) (take (suc j) p))
      (admits-take skip k j (prefix ++ (i ∷ [])) p (omega arith) (omega arith) (both _ _ a).1)

skip_sums-bounds :
    (p : List ℕ)
    → skip_sums p ≡ false
    → (sum_range p 0 5 ≤ 10)
      × (sum_range p 5 10 ≤ 1)
      × (sum_range p 10 15 ≤ 1)
      × (sum_range p 15 20 ≤ 1)
unfolding skip_sums
skip_sums-bounds p h = ground arith

-- A point of the sweep: twenty numbers, none negative, of which the first five add up to ten, and the
-- five numbers of each other group to one at most.
pub record IsPoint (q : List ℤ) : Type 0 where
  pub numbers : List ℕ
  pub natural : q ≡ map pos numbers
  pub twenty : length numbers ≡ 20
  pub first : total (take 5 numbers) ≡ 10
  pub second : total (take 5 (drop 5 numbers)) ≤ 1
  pub third : total (take 5 (drop 10 numbers)) ≤ 1
  pub fourth : total (take 5 (drop 15 numbers)) ≤ 1

sub_ℕ_pos : (a b : ℕ) → b ≤ a → sub_ℕ a b ≡ pos (a - b)
sub_ℕ_pos a b h = ground arith

balance-IsPoint :
    (p : List ℕ)
    → Within p (11 ∷ dimensions)
    → admits skip_sums 19 [] p ≡ true
    → IsPoint (balance p)
unfolding balance sum_range clip take drop total
balance-IsPoint _
      (entry {i = a0} h0 (
        entry {i = a1} h1 (
          entry {i = a2} h2 (
            entry {i = a3} h3 (
              entry {i = a4} h4 (
                entry {i = a5} h5 (
                  entry {i = a6} h6 (
                    entry {i = a7} h7 (
                      entry {i = a8} h8 (
                        entry {i = a9} h9 (
                          entry {i = a10} h10 (
                            entry {i = a11} h11 (
                              entry {i = a12} h12 (
                                entry {i = a13} h13 (
                                  entry {i = a14} h14 (
                                    entry {i = a15} h15 (
                                      entry {i = a16} h16 (
                                        entry {i = a17} h17 (
                                          entry {i = a18} h18
                                            (entry {i = a19} h19 none_left))))))))))))))))))))
      a =
    let p : List ℕ =
      a0 ∷ a1 ∷ a2 ∷ a3 ∷ a4 ∷ a5 ∷ a6 ∷ a7 ∷ a8 ∷ a9 ∷ a10 ∷ a11 ∷ a12 ∷ a13 ∷ a14 ∷ a15 ∷ a16
      ∷ a17 ∷ a18 ∷ a19 ∷ [] in
    let f =
      skip_sums-bounds (take 5 p) (admits-take skip_sums 19 4 [] p (omega arith) (omega arith) a) in
    let g =
      skip_sums-bounds (take 10 p)
        (admits-take skip_sums 19 9 [] p (omega arith) (omega arith) a) in
    let u =
      skip_sums-bounds (take 15 p)
        (admits-take skip_sums 19 14 [] p (omega arith) (omega arith) a) in
    let v =
      skip_sums-bounds (take 19 p)
        (admits-take skip_sums 19 18 [] p (omega arith) (omega arith) a) in
    record {
      numbers =
          a0
          ∷ a1
          ∷ a2
          ∷ a3
          ∷ (10 - (a0 + (a1 + (a2 + (a3 + 0)))))
          ∷ a5
          ∷ a6
          ∷ a7
          ∷ a8
          ∷ a9
          ∷ a10
          ∷ a11
          ∷ a12
          ∷ a13
          ∷ a14
          ∷ a15
          ∷ a16
          ∷ a17
          ∷ a18
          ∷ a19
          ∷ [];
      natural =
          ap (λ (z : ℤ). set (map pos p) 4 z)
            (sub_ℕ_pos 10 (a0 + (a1 + (a2 + (a3 + 0)))) (omega (arith, f.0)));
      twenty = refl;
      first = omega (arith, f.0);
      second = omega (arith, g.1);
      third = omega (arith, u.2);
      fourth = omega (arith, v.3);
    }

map-All :
    (P : List ℕ → Type 0) (ps : List (List ℕ))
    → ((p : List ℕ) → P p → IsPoint (balance p))
    → All P ps
    → All IsPoint (map balance ps)
map-All P [] h w = tt
map-All P (p ∷ ps) h w = (h p w.0, map-All P ps h w.1)

abbrev Kept : ℕ → List ℕ → List ℕ → Type 0
Kept n ms p = Within p (n ∷ ms) × (admits skip_sums (length ms) [] p ≡ true)

permuted-Kept : (n : ℕ) (ms : List ℕ) → All (Kept n ms) (permute_from skip_sums n ms [])
permuted-Kept n ms = subst (All (Kept n ms)) (sym (permute_from_lem skip_sums n ms)) (
    keep-All (Kept n ms) (λ p. Within p (n ∷ ms)) (admits skip_sums (length ms) [])
      (λ p w a. (w, a)) (product n ms) (product-Within n ms))

-- Each point of `buildSweep` has twenty numbers, none of them negative: the first five add up to ten,
-- and each other five to one at most.
pub build_sweep-IsPoint : All IsPoint build_sweep
unfolding build_sweep
build_sweep-IsPoint =
    map-All (Kept 11 dimensions) (permute_from skip_sums 11 dimensions [])
      (λ p k. balance-IsPoint p k.0 k.1) (permuted-Kept 11 dimensions)
