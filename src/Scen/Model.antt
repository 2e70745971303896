-- ===== src/Scen/Model.antt =====
-- The data of scen/scenario.go, lifetimes, the facilities of a scenario and its build periods.
--
-- `W` is the type of floats. An `int` is an integer without bounds. A cached template is the fact
-- that the file was parsed. The fields that nothing here reads are left out: `NuclideCost`, `Discount`,
-- `CustomConfig`, which is an argument where it is read, and the ones of a facility for costs.
use cloudlus.Base.{
  ℕ, ◌+◌, Bool, ◌&&◌, ◌||◌, Option, none, some, List, [], ◌∷◌, String, if◌then◌else◌, length, keep,
  range_from, map,
}
use cloudlus.Base.Int.{ℤ, pos, negsuc, ◌+ℤ◌, ◌-ℤ◌, ◌*ℤ◌, leb_ℤ, ltb_ℤ, eq_ℤ, quot}
use cloudlus.Scen.Float.{Float}
use text.Mathlib.Text.{◌==◌ as str_eq}

pub record Facility (W : Type 0) : Type 0 where
  pub proto : String
  pub cap : W
  pub life : ℤ
  pub build_after : ℤ
  pub frac_of_protos : List String

pub record Build (W : Type 0) : Type 0 where
  pub time : ℤ
  pub proto : String
  pub n : ℤ
  pub life : ℤ
  pub fac : Facility W

pub record Scenario (W : Type 0) : Type 0 where
  pub sim_dur : ℤ
  pub build_offset : ℤ
  pub trailing_dur : ℤ
  pub cyclus_tmpl : String
  pub build_period : ℤ
  pub obj_func : String
  pub obj_mode : String
  pub splice_vars : List W
  pub splice_time : ℤ
  pub single_calc : Bool
  pub facs : List (Facility W)
  pub min_power : List W
  pub max_power : List W
  pub start_builds : List (Build W)
  pub builds : List (Build W)
  pub file : String
  pub handle : String
  pub tmpl : Bool

-- `Alive`: a lifetime of zero or less does not end.
unfoldable pub alive : ℤ → ℤ → ℤ → Bool
alive built t life = leb_ℤ built t && (ltb_ℤ t (built +ℤ life) || leb_ℤ life (pos 0))

-- Two choices among names are made by the text.
unfoldable pub find_proto : {W : Type 0} → String → List (Facility W) → Option (Facility W)
find_proto p [] = none
find_proto p (f ∷ fs) = let rest = find_proto p fs in if str_eq f.proto p then some f else rest

-- The length of a new slice: `none` is the panic for a negative one.
unfoldable pub slice_length : Option ℤ → Option ℕ
slice_length none = none
slice_length (some (pos n)) = some n
slice_length (some (negsuc n)) = none

module _ {W : Type 0} where
  unfoldable pub available : ℤ → Facility W → Bool
  available t f = leb_ℤ f.build_after t && leb_ℤ (pos 0) f.build_after

  unfoldable pub lifetime : Build W → ℤ
  lifetime b =
      if ltb_ℤ (pos 0) b.life
      then b.life
      else if ltb_ℤ (pos 0) b.fac.life
      then b.fac.life
      else negsuc 0

  unfoldable pub build_alive : ℤ → Build W → Bool
  unfolding alive lifetime
  build_alive t b = alive b.time t (lifetime b)

  -- `Facility{}` has a capacity of zero.
  abbrev pub blank : W → Facility W
  blank z = record { proto = ""; cap = z; life = pos 0; build_after = pos 0; frac_of_protos = [] }

  unfoldable pub prototype : String → Scenario W → Option (Facility W)
  unfolding find_proto
  prototype p s = find_proto p s.facs

  unfoldable pub time_of : ℤ → Scenario W → ℤ
  time_of period s = period *ℤ s.build_period +ℤ pos 1 +ℤ s.build_offset

  -- `periodOf`, for a build period that is not zero.
  unfoldable pub period_of : ℤ → Scenario W → ℤ
  period_of time s = quot (time -ℤ s.build_offset -ℤ pos 1) s.build_period

  -- `nperiods`: `none` is the panic of a division by zero.
  unfoldable pub nperiods : Scenario W → Option ℤ
  nperiods s =
      if eq_ℤ s.build_period (pos 0)
      then none
      else some
          (quot (s.sim_dur -ℤ s.build_offset -ℤ s.trailing_dur -ℤ pos 2) s.build_period +ℤ pos 1)

  -- The times of the first `n` periods.
  unfoldable pub times_of : ℕ → Scenario W → List ℤ
  unfolding time_of
  times_of n s = map (λ i. time_of (pos i) s) (range_from 0 n)

  unfoldable pub period_times : Scenario W → Option (List ℤ)
  unfolding slice_length nperiods times_of
  period_times s = elim (slice_length (nperiods s)) [ none ↦ none | some n ↦ some (times_of n s) ]

  module _ ⦃d : Float W⦄ where
    unfoldable pub is_reactor : Facility W → Bool
    is_reactor f = d.lt d.nought f.cap && leb_ℤ (pos 0) f.build_after

    unfoldable pub is_not_reactor : Facility W → Bool
    is_not_reactor f = d.eq f.cap d.nought && leb_ℤ (pos 0) f.build_after

    unfoldable pub reactors : Scenario W → List (Facility W)
    unfolding is_reactor keep
    reactors s = keep is_reactor s.facs

    unfoldable pub notreactors : Scenario W → List (Facility W)
    unfolding is_not_reactor keep
    notreactors s = keep is_not_reactor s.facs

    -- `NVarsPerPeriod`: the one for power and the one fewer for reactors cancel.
    unfoldable pub nvars_per_period : Scenario W → ℕ
    unfolding reactors notreactors
    nvars_per_period s = length (reactors s) + length (notreactors s)

    unfoldable pub nvars : Scenario W → Option ℤ
    unfolding nvars_per_period nperiods
    nvars s = elim (nperiods s) [ none ↦ none | some n ↦ some (pos (nvars_per_period s) *ℤ n) ]
