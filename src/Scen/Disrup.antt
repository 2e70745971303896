-- ===== src/Scen/Disrup.antt =====
-- Disruptions, scen/objective_disrup.go: how they are read, and how they change a scenario.
--
-- A configuration is the map that JSON gives, whose values are numbers, texts or others; a type
-- assertion on a value of another type panics.
use cloudlus.Base.{
  Bool, true, false, ◌&&◌, ◌||◌, not, Option, none, some, List, [], ◌∷◌, ◌++◌, String,
  if◌then◌else◌, map,
}
use cloudlus.Base.Int.{ℤ, pos, ◌-ℤ◌, ltb_ℤ}
use cloudlus.Scen.Float.{Float}
use cloudlus.Scen.Model.{Build, Scenario, blank, build_alive, find_proto}
use cloudlus.Scen.Check.{Result, ok, err, panic, ◌>>=◌, missing_param, one_of_protos, validate}
use text.Mathlib.Text.{◌==◌ as str_eq}

pub record Disruption (W : Type 0) : Type 0 where
  pub time : ℤ
  pub kill_proto : String
  pub build_proto : String
  pub switch_obj_func : String
  pub prob : W
  pub sample : Bool
  pub known_best : W

pub data Value (W : Type 0) : Type 0 where
  number : W → Value W
  words : String → Value W
  other : Value W

abbrev pub Params : Type 0 → Type 0
Params W = List (String × Value W)

-- `optProb` and `optKnownBest`
pub record Options : Type 0 where
  pub wants_prob : Bool
  pub wants_best : Bool

-- Whether exactly one prototype is named.
unfoldable pub names_one : String → String → Bool
names_one kills builds =
    not (str_eq kills "" && str_eq builds "")
    && not (not (str_eq kills "") && not (str_eq builds ""))

module _ {W : Type 0} where
  unfoldable pub param : String → Params W → Option (Value W)
  param p [] = none
  param p ((q, v) ∷ m) = if str_eq q p then some v else param p m

  unfoldable pub as_number : Value W → Result W
  as_number (number x) = ok x
  as_number (words s) = panic
  as_number other = panic

  unfoldable pub as_text : Value W → Result String
  as_text (number x) = panic
  as_text (words s) = ok s
  as_text other = panic

  -- A parameter with a default.
  unfoldable pub number_or : W → Option (Value W) → Result W
  unfolding as_number
  number_or x none = ok x
  number_or x (some v) = as_number v

  unfoldable pub text_or : String → Option (Value W) → Result String
  unfolding as_text
  text_or s none = ok s
  text_or s (some v) = as_text v

  -- A parameter that is an error to leave out if it is needed.
  unfoldable pub number_unless : Bool → String → W → Option (Value W) → Result W
  unfolding as_number
  number_unless needed name x none = if needed then err (missing_param name) else ok x
  number_unless needed name x (some v) = as_number v

  module _ ⦃d : Float W⦄ where
    unfoldable pub parse_disrup : Params W → Options → Result (Disruption W)
    unfolding param number_or text_or number_unless names_one
    parse_disrup m opts = do
      s ← number_or d.nought (param "Sample" m)
      let sampled = not (d.eq s d.nought)
      t ← number_unless true "Time" d.nought (param "Time" m)
      kills ← text_or "" (param "KillProto" m)
      builds ← text_or "" (param "BuildProto" m)
      u ← (if sampled && not (names_one kills builds) then err one_of_protos else ok t)
      prob ← number_unless (opts.wants_prob && sampled) "Prob" d.nought (param "Prob" m)
      best ← number_unless (opts.wants_best && sampled) "KnownBest" d.nought (param "KnownBest" m)
      ok (record {
        time = d.to_int t;
        kill_proto = kills;
        build_proto = builds;
        switch_obj_func = "";
        prob = prob;
        sample = sampled;
        known_best = best;
      })

  -- The one new facility of a disruption. A prototype that is not defined is a panic.
  unfoldable pub builds_for_disrup : Scenario W → Disruption W → Result (List (Build W))
  unfolding find_proto
  builds_for_disrup s dis =
      if ltb_ℤ dis.time (pos 0) || str_eq dis.build_proto ""
      then ok []
      else elim (find_proto dis.build_proto s.facs) [
        | none ↦ panic
        | some f ↦ ok (
            record { time = dis.time; proto = dis.build_proto; n = pos 1; life = pos 0; fac = f }
            ∷ [])
      ]

  unfoldable pub mod_build_for_disrup : Disruption W → Build W → Build W
  unfolding build_alive
  mod_build_for_disrup dis b =
      if ltb_ℤ dis.time (pos 0)
      then b
      else if not (str_eq b.proto dis.kill_proto)
      then b
      else if not (build_alive dis.time b)
      then b
      else record b { life = dis.time -ℤ b.time }

  -- The change of a clone.
  unfoldable pub disrupt : Scenario W → Disruption W → Result (Scenario W)
  unfolding builds_for_disrup mod_build_for_disrup
  disrupt s dis = do
    new ← builds_for_disrup s dis
    let builds = s.builds ++ new
    ok (record s {
      obj_func = if str_eq dis.switch_obj_func "" then s.obj_func else dis.switch_obj_func;
      builds = if ltb_ℤ dis.time (pos 0) then builds else map (mod_build_for_disrup dis) builds;
    })

  module _ ⦃d : Float W⦄ (parses : String → String → Bool) where
    -- What JSON keeps of a build and of a scenario: the fields that Go exports.
    unfoldable pub exported_build : Build W → Build W
    exported_build b = record b { fac = blank d.nought }

    -- `Clone`, which validates and ignores the error. JSON has no NaN and no infinity: the floats of
    -- `s` are neither.
    unfoldable pub cleared : Scenario W → Scenario W
    unfolding exported_build
    cleared s = record s {
      tmpl = false;
      start_builds = map exported_build s.start_builds;
      builds = map exported_build s.builds;
    }

    unfoldable pub clone : Scenario W → Result (Scenario W)
    unfolding cleared validate
    clone s =
        let (c, v) = validate parses (cleared s) in
        elim v [ panic ↦ panic | err e ↦ ok c | ok u ↦ ok c ]

    unfoldable pub mod_for_disrup : Scenario W → Disruption W → Result (Scenario W)
    unfolding clone disrupt
    mod_for_disrup s dis = do c ← clone s; disrupt c dis
