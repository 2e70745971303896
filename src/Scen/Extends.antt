-- ===== src/Scen/Extends.antt =====
-- What TransformVars of scen/scenario.go adds to the builds that a scenario starts with.
use cloudlus.Base.{
  ℕ, suc, ◌*◌, Bool, ◌&&◌, ◌≡◌, refl, sym, ◌∙◌, true, List, [], ◌∷◌, ◌++◌, String, if◌then◌else◌,
  keep, All, All-append, arith, Bool-cases, inl, inr,
}
use cloudlus.Base.Int.{ℤ, pos, ltb_ℤ}
use cloudlus.Scen.Float.{Float}
use cloudlus.Scen.Model.{Facility, Build, Scenario, available, nvars_per_period}
use cloudlus.Scen.Check.{ok}
use cloudlus.Scen.Entries.{entry, ok->>=}
use cloudlus.Scen.Valid.{ok_eq}
use mathlib.Core.Path.{subst}
use cloudlus.Scen.Deploy.{
  Deploy, builds_of, append_build, group, add_build, nbuild_for, nbuild_other, reactor_loop,
  add_implicit, other_loop, deploy_period, deploy_periods, cap_to_build, power_cap,
}
use text.Mathlib.Text.{◌==◌ as str_eq}
use text.Mathlib.TextEquality.{eq_iff}
use mathlib.Core.List.{Mem, append_assoc, append-nil}

both : (a b : Bool) → (a && b) ≡ true → b ≡ true
both a b h = ground arith

module _ {W : Type 0} where
  pub builds_of-append_build :
      (p q : String) (b : Build W) (m : Deploy W)
      → builds_of p (append_build q b m)
        ≡ (if str_eq q p then builds_of p m ++ b ∷ [] else builds_of p m)
  unfolding builds_of append_build
  builds_of-append_build p q b [] = ground arith
  builds_of-append_build p q b ((r, bs) ∷ m) =
      ground (arith, eq_iff r p, eq_iff r q, eq_iff q p, builds_of-append_build p q b m)

  pub builds_of-group :
      (p : String) (bs : List (Build W)) (m : Deploy W)
      → builds_of p (group bs m) ≡ builds_of p m ++ keep (λ (b : Build W). str_eq b.proto p) bs
  unfolding group keep
  builds_of-group p [] m = sym (append-nil _)
  builds_of-group p (b ∷ bs) m = elim (Bool-cases (str_eq b.proto p)) [
    | inl e ↦
        rw
          (builds_of-group p bs (append_build b.proto b m), builds_of-append_build p b.proto b m, e)
          (append_assoc (builds_of p m) (b ∷ []) (keep (λ (b : Build W). str_eq b.proto p) bs))
    | inr e ↦
        rw
          (builds_of-group p bs (append_build b.proto b m), builds_of-append_build p b.proto b m, e)
          refl
  ]

  -- Each prototype has its builds of before, and then others, of which `Q` holds.
  abbrev pub Extends : (String → Build W → Type 0) → Deploy W → Deploy W → Type 0
  Extends Q m m' =
      (p : String)
      → (new : List (Build W)) × (builds_of p m' ≡ builds_of p m ++ new) × All (Q p) new

  module _ (Q : String → Build W → Type 0) where
    refl-Extends : (m : Deploy W) → Extends Q m m
    refl-Extends m p = ([], sym (append-nil _), tt)

    trans-Extends : (a b c : Deploy W) → Extends Q a b → Extends Q b c → Extends Q a c
    trans-Extends a b c h k p = (
      (h p).0 ++ (k p).0,
      (k p).1 ∙ rw ((h p).1) (append_assoc (builds_of p a) (h p).0 (k p).0),
      All-append (Q p) _ _ (h p).2 (k p).2,
    )

    append_build-Extends :
        (q : String) (b : Build W) (m : Deploy W) → Q q b → Extends Q m (append_build q b m)
    append_build-Extends q b m h p = elim (Bool-cases (str_eq q p)) [
      | inl e ↦
          (b ∷ [], rw (builds_of-append_build p q b m, e) refl, (rw ((eq_iff q p).0 e) at h, tt))
      | inr e ↦ ([], rw (builds_of-append_build p q b m, e) (sym (append-nil _)), tt)
    ]

  -- What a new build of a scenario with these facilities and build times has.
  pub record IsNew (facs : List (Facility W)) (ts : List ℤ) (p : String) (b : Build W)
      : Type 0 where
    pub named : b.proto ≡ p
    pub counted : ltb_ℤ (pos 0) b.n ≡ true
    pub listed : Mem b.fac facs
    pub own : b.fac.proto ≡ p
    pub timed : Mem b.time ts
    pub allowed : available b.time b.fac ≡ true

  module _ (facs : List (Facility W)) (ts : List ℤ) where
    add_build-Extends :
        (t : ℤ) (f : Facility W) (n : ℤ) (m : Deploy W)
        → Mem f facs
        → Mem t ts
        → available t f ≡ true
        → Extends (IsNew facs ts) m (add_build t f n m)
    unfolding add_build
    add_build-Extends t f n m hf ht ha = elim (Bool-cases (ltb_ℤ (pos 0) n)) [
      | inl e ↦ rw e (
          append_build-Extends (IsNew facs ts) f.proto
            (record { time = t; proto = f.proto; n = n; life = pos 0; fac = f }) m
            (record {
              named = refl;
              counted = e;
              listed = hf;
              own = refl;
              timed = ht;
              allowed = ha;
            }))
      | inr e ↦ rw e (refl-Extends (IsNew facs ts) m)
    ]

    module _ ⦃d : Float W⦄ where
      -- What the loop over the reactors leaves: facilities of the list, and a map with more builds.
      reactor_loop-Extends :
          (t : ℤ) (vars : List W) (k : ℕ) (fs : List (Facility W)) (left : W) (m : Deploy W)
          (r : ℕ × List (Facility W) × W × Deploy W)
          → Mem t ts
          → All (λ f. Mem f facs) fs
          → reactor_loop t vars k fs left m ≡ ok r
          → All (λ f. Mem f facs) r.1 × Extends (IsNew facs ts) m r.3
      unfolding reactor_loop
      reactor_loop-Extends t vars k [] left m r ht hf h =
          subst (λ r. All (λ f. Mem f facs) r.1 × Extends (IsNew facs ts) m r.3) (ok_eq _ r h)
            (tt, refl-Extends (IsNew facs ts) m)
      reactor_loop-Extends t vars k (f ∷ fs) left m r ht hf h =
          let (val, e, h1) = ok->>= (entry vars k) _ r h in
          let n = nbuild_for (d.mul val left) f in
          elim (Bool-cases (d.lt d.nought f.cap && available t f)) [
            | inr a ↦
                subst (λ r. All (λ f. Mem f facs) r.1 × Extends (IsNew facs ts) m r.3)
                  (ok_eq _ r (rw a at h1)) (hf, refl-Extends (IsNew facs ts) m)
            | inl a ↦
                (let m' = add_build t f n m in
                  let x =
                    reactor_loop-Extends t vars (suc k) fs (d.sub left (d.mul (d.of_int n) f.cap))
                      m' r ht hf.1 (rw a at h1) in
                  (
                    x.0,
                    trans-Extends (IsNew facs ts) m m' r.3
                        (add_build-Extends t f n m hf.0 ht
                          (both (d.lt d.nought f.cap) (available t f) a))
                        x.1,
                  ))
          ]

      add_implicit-Extends :
          (t : ℤ) (f : Facility W) (left : W) (m : Deploy W)
          → Mem t ts
          → Mem f facs
          → Extends (IsNew facs ts) m (add_implicit t f left m)
      unfolding add_implicit
      add_implicit-Extends t f left m ht hf = elim (Bool-cases (available t f)) [
        | inr a ↦ rw a (refl-Extends (IsNew facs ts) m)
        | inl a ↦ rw a (add_build-Extends t f (nbuild_for left f) m hf ht a)
      ]

      other_loop-Extends :
          (t : ℤ) (vars : List W) (k : ℕ) (fs : List (Facility W)) (m m' : Deploy W)
          → Mem t ts
          → All (λ f. Mem f facs) fs
          → other_loop t vars k fs m ≡ ok m'
          → Extends (IsNew facs ts) m m'
      unfolding other_loop
      other_loop-Extends t vars k [] m m' ht hf h =
          subst (Extends (IsNew facs ts) m) (ok_eq m m' h) (refl-Extends (IsNew facs ts) m)
      other_loop-Extends t vars k (f ∷ fs) m m' ht hf h =
          let (frac, e, h1) = ok->>= (entry vars k) _ m' h in
          let n = nbuild_other t frac f m in
          elim (Bool-cases (available t f)) [
            | inr a ↦ other_loop-Extends t vars (suc k) fs m m' ht hf.1 (rw a at h1)
            | inl a ↦
                trans-Extends (IsNew facs ts) m (add_build t f n m) m'
                  (add_build-Extends t f n m hf.0 ht a)
                  (other_loop-Extends t vars (suc k) fs (add_build t f n m) m' ht hf.1 (rw a at h1))
          ]

      module _ (order : Deploy W → Deploy W) where
        deploy_period-Extends :
            (t : ℤ) (vars : List W) (k : ℕ) (fs : List (Facility W)) (f : Facility W) (lo up : W)
            (m m' : Deploy W)
            → Mem t ts
            → All (λ f. Mem f facs) fs
            → Mem f facs
            → deploy_period order t vars k fs f lo up m ≡ ok m'
            → Extends (IsNew facs ts) m m'
        unfolding deploy_period
        deploy_period-Extends t vars k fs f lo up m m' ht hs hf h =
            let (pow, _, h1) = ok->>= (entry vars k) _ m' h in
            let left = cap_to_build order pow lo up (power_cap order t m) in
            let (r, e, h2) = ok->>= (reactor_loop t vars (suc k) fs left m) _ m' h1 in
            let x = reactor_loop-Extends t vars (suc k) fs left m r ht hs e in
            let m1 = add_implicit t f r.2 r.3 in
            trans-Extends (IsNew facs ts) m r.3 m' x.1 (
              trans-Extends (IsNew facs ts) r.3 m1 m' (add_implicit-Extends t f r.2 r.3 ht hf)
                (other_loop-Extends t vars r.0 r.1 m1 m' ht x.0 h2))

        pub deploy_periods-Extends :
            (s : Scenario W) (vars : List W) (fs : List (Facility W)) (f : Facility W) (i : ℕ)
            (us : List ℤ) (m m' : Deploy W)
            → All (λ t. Mem t ts) us
            → All (λ f. Mem f facs) fs
            → Mem f facs
            → deploy_periods order s vars fs f i us m ≡ ok m'
            → Extends (IsNew facs ts) m m'
        unfolding deploy_periods
        deploy_periods-Extends s vars fs f i [] m m' hu hs hf h =
            subst (Extends (IsNew facs ts) m) (ok_eq m m' h) (refl-Extends (IsNew facs ts) m)
        deploy_periods-Extends s vars fs f i (t ∷ us) m m' hu hs hf h =
            let (lo, _, h1) = ok->>= (entry s.min_power i) _ m' h in
            let (up, _, h2) = ok->>= (entry s.max_power i) _ m' h1 in
            let (m1, e, h3) =
              ok->>= (deploy_period order t vars (i * nvars_per_period s) fs f lo up m) _ m' h2 in
            trans-Extends (IsNew facs ts) m m1 m'
              (deploy_period-Extends t vars (i * nvars_per_period s) fs f lo up m m1 hu.0 hs hf e)
              (deploy_periods-Extends s vars fs f (suc i) us m1 m' hu.1 hs hf h3)
