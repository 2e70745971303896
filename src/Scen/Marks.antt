-- ===== src/Scen/Marks.antt =====
-- Which scenarios CalcTotalObjective of scen/scenario.go has simulated.
use cloudlus.Base.{
  some_eq, ◌≡◌, refl, sym, ap, ◌∙◌, Bool, true, false, some, List, [], ◌∷◌, String, All, Bool-cases,
  Option-cases, inl, inr,
}
use cloudlus.Scen.Float.{Float}
use cloudlus.Scen.Model.{Scenario}
use cloudlus.Scen.Check.{Result, ok, err, panic, ◌>>=◌}
use cloudlus.Scen.Vars.{or_panic}
use cloudlus.Scen.Disrup.{Disruption, mod_for_disrup, parse_disrup}
use cloudlus.Scen.Modes.{
  Exec, Config, gather, sampled, mod_all, run_all, run_disrup_sims, single_mode, double_mode,
  disrup_single_mode, disrup_single_mode_lin, modes, parse_all, disrup_mode, disrup_mode_lin,
  mode_of, calc_total_objective,
}
use cloudlus.Scen.Valid.{Result-cases, ok_eq, ok≢panic, ok≢err}
use cloudlus.Scen.Kept.{mod_for_disrup-mark}
use mathlib.Core.Path.{subst}
use text.Mathlib.Text.{◌==◌ as str_eq}

-- Two chains of calls that begin alike and go on alike.
pub >>=_cong :
    {A B : Type 0} (r : Result A) (f g : A → Result B)
    → ((a : A) → r ≡ ok a → f a ≡ g a)
    → (r >>= f) ≡ (r >>= g)
>>=_cong (ok a) f g h = h a refl
>>=_cong (err e) f g h = refl
>>=_cong panic f g h = refl

pub same_start :
    {A B : Type 0} (r r' : Result A) (f : A → Result B) → r ≡ r' → (r >>= f) ≡ (r' >>= f)
same_start r r' f e = ap (λ r. r >>= f) e

module _ {W : Type 0} ⦃d : Float W⦄ (parses : String → String → Bool) where
  abbrev IsMarked : Scenario W → Type 0
  IsMarked s = s.single_calc ≡ true

  module _ (cfg : Config W) (f g : Exec W)
      (alike : (c : Scenario W) → c.single_calc ≡ true → f c ≡ g c) where
    run_all-alike : (cs : List (Scenario W)) → All IsMarked cs → run_all f cs ≡ run_all g cs
    unfolding run_all
    run_all-alike [] h = refl
    run_all-alike (c ∷ cs) h =
        ap (λ r. gather r (run_all f cs)) (alike c h.0) ∙ ap (gather (g c)) (run_all-alike cs h.1)

    mod_all-IsMarked :
        (s : Scenario W) (ps : List (Disruption W)) (cs : List (Scenario W))
        → IsMarked s
        → mod_all parses cfg s ps ≡ ok cs
        → All IsMarked cs
    unfolding mod_all
    mod_all-IsMarked s [] cs m h = rw (sym (ok_eq [] cs h)) tt
    mod_all-IsMarked s (p ∷ ps) cs m h = elim (Result-cases (mod_for_disrup parses s p)) [
      | inr (inl (x, e)) ↦ absurd (ok≢err cs x (rw (mod_all, e) at h))
      | inr (inr e) ↦ absurd (ok≢panic cs (rw (mod_all, e) at h))
      | inl (c, e) ↦ elim (Result-cases (mod_all parses cfg s ps)) [
        | inr (inl (x, q)) ↦ absurd (ok≢err cs x (rw (mod_all, e, q) at h))
        | inr (inr q) ↦ absurd (ok≢panic cs (rw (mod_all, e, q) at h))
        | inl (ds, q) ↦
            rw (sym (ok_eq _ cs (rw (mod_all, e, q) at h)))
              (mod_for_disrup-mark parses s c p e ∙ m, mod_all-IsMarked s ps ds m q)
      ]
    ]

    run_disrup_sims-alike :
        (s : Scenario W) (ps : List (Disruption W))
        → IsMarked s
        → run_disrup_sims parses cfg s f ps ≡ run_disrup_sims parses cfg s g ps
    unfolding run_disrup_sims
    run_disrup_sims-alike s ps m =
        >>=_cong (mod_all parses cfg s (sampled ps)) _ _
          (λ cs e. run_all-alike cs (mod_all-IsMarked s (sampled ps) cs m e))

    double_mode-alike :
        (s : Scenario W) → IsMarked s → double_mode parses cfg s f ≡ double_mode parses cfg s g
    unfolding double_mode
    double_mode-alike s m = rw (double_mode, alike s m) refl

    disrup_single_mode-alike :
        (s : Scenario W)
        → IsMarked s
        → disrup_single_mode parses cfg s f ≡ disrup_single_mode parses cfg s g
    unfolding disrup_single_mode
    disrup_single_mode-alike s m = >>=_cong (or_panic cfg.single) _ _ (λ q _.
        >>=_cong (parse_disrup q (record { wants_prob = false; wants_best = false })) _ _ (λ p _.
          >>=_cong (mod_for_disrup parses s p) _ _
            (λ c e. alike c (mod_for_disrup-mark parses s c p e ∙ m))))

    disrup_single_mode_lin-alike :
        (s : Scenario W)
        → IsMarked s
        → disrup_single_mode_lin parses cfg s f ≡ disrup_single_mode_lin parses cfg s g
    unfolding disrup_single_mode_lin
    disrup_single_mode_lin-alike s m = >>=_cong (or_panic cfg.single) _ _ (λ q _.
        >>=_cong (parse_disrup q (record { wants_prob = false; wants_best = true })) _ _ (λ p _.
          >>=_cong (mod_for_disrup parses s p) _ _
            (λ c e. same_start _ _ _ (alike c (mod_for_disrup-mark parses s c p e ∙ m)))))

    disrup_mode-alike :
        (s : Scenario W) → IsMarked s → disrup_mode parses cfg s f ≡ disrup_mode parses cfg s g
    unfolding disrup_mode
    disrup_mode-alike s m = >>=_cong (or_panic cfg.multi) _ _ (λ q _.
        >>=_cong (parse_all q (record { wants_prob = true; wants_best = false })) _ _
          (λ ps _. same_start _ _ _ (run_disrup_sims-alike s ps m)))

    disrup_mode_lin-alike :
        (s : Scenario W)
        → IsMarked s
        → disrup_mode_lin parses cfg s f ≡ disrup_mode_lin parses cfg s g
    unfolding disrup_mode_lin
    disrup_mode_lin-alike s m = >>=_cong (or_panic cfg.multi) _ _ (λ q _.
        >>=_cong (parse_all q (record { wants_prob = true; wants_best = true })) _ _
          (λ ps _. same_start _ _ _ (run_disrup_sims-alike s ps m)))

    -- A mode that has only marked scenarios simulated, if it is given one.
    abbrev MarkedOnly : String × (Scenario W → Exec W → Result W) → Type 0
    MarkedOnly (name, mode) = (s : Scenario W) → IsMarked s → mode s f ≡ mode s g

    modes-MarkedOnly : All MarkedOnly (modes parses cfg)
    unfolding modes single_mode
    modes-MarkedOnly = (
      alike,
      (
        alike,
        (
          disrup_mode-alike,
          (
            disrup_mode_lin-alike,
            (disrup_single_mode-alike, (disrup_single_mode_lin-alike, (double_mode-alike, tt))),
          ),
        ),
      ),
    )

    mode_of-MarkedOnly :
        (name : String) (m : List (String × (Scenario W → Exec W → Result W)))
        (mode : Scenario W → Exec W → Result W)
        → All MarkedOnly m
        → mode_of name m ≡ some mode
        → (s : Scenario W) → IsMarked s
        → mode s f ≡ mode s g
    unfolding mode_of
    mode_of-MarkedOnly name [] mode h e = absurd cc
    mode_of-MarkedOnly name ((key, a) ∷ m) mode h e = elim (Bool-cases (str_eq key name)) [
      | inl k ↦ subst (λ a. MarkedOnly (name, a)) (some_eq a mode (rw (mode_of, k) at e)) h.0
      | inr k ↦ mode_of-MarkedOnly name m mode h.1 (rw (mode_of, k) at e)
    ]

    -- CalcTotalObjective has only scenarios simulated that are marked as one of several: two ways to run
    -- a simulation that agree on all marked scenarios give it the same result.
    pub calc_total_objective_marked :
        (s : Scenario W) → calc_total_objective parses cfg s f ≡ calc_total_objective parses cfg s g
    unfolding calc_total_objective
    calc_total_objective_marked s = elim (Bool-cases s.single_calc) [
      | inl m ↦
          rw (calc_total_objective, m)
            (ap (λ r. (record s { single_calc = true }, r))
              (alike (record s { single_calc = true }) refl))
      | inr m ↦ elim (Option-cases (mode_of s.obj_mode (modes parses cfg))) [
        | inl e ↦ rw (calc_total_objective, m, e) refl
        | inr (mode, e) ↦
            rw (calc_total_objective, m, e)
              (ap (λ r. (record s { single_calc = false }, r))
                (mode_of-MarkedOnly s.obj_mode (modes parses cfg) mode modes-MarkedOnly e
                  (record s { single_calc = true }) refl))
      ]
    ]
