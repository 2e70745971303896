-- ===== src/Cmd/Dakota/Evaluations.antt =====
-- What dakota reads from an objective file of cmd/dakotadriver/main.go.
use cloudlus.Base.{
  ◌≡◌, refl, true, Option, none, some, List, [], ◌∷◌, String, map, Bool-cases, inl, inr,
}
use cloudlus.Base.Words.{split, trim_space}
use cloudlus.Cmd.Dakota.{
  is_line_end, is_blank, is_some, names_variable, variable_value, add_value, line_values,
  parse_params, Flags, World, penalty, arguments, objective_text, evaluate,
}

-- A line with a value and the name of a variable, as it is split at single blanks.
pub record IsValue (l v : String) : Type 0 where
  pub name : String
  pub rest : List String
  pub words : map trim_space (split is_blank (trim_space l)) ≡ v ∷ name ∷ rest
  pub variable : names_variable name ≡ true

-- A line that has no such name.
pub record IsOther (l : String) : Type 0 where
  pub no_value : variable_value (map trim_space (split is_blank (trim_space l))) ≡ none

-- Some lines, the values of variables in them, in order, and lines of other things between these.
pub data HasValues : List String → List String → Type 0 where
  ends : HasValues [] []
  one :
      {l v : String} {ls vs : List String}
      → IsValue l v
      → HasValues ls vs
      → HasValues (l ∷ ls) (v ∷ vs)
  other : {l : String} {ls vs : List String} → IsOther l → HasValues ls vs → HasValues (l ∷ ls) vs

line_values-HasValues : {ls vs : List String} → HasValues ls vs → line_values ls ≡ vs
unfolding line_values variable_value add_value
line_values-HasValues ends = refl
line_values-HasValues (one p h) =
    rw (line_values, p.words, variable_value, p.variable, line_values-HasValues h) refl
line_values-HasValues (other p h) = rw (line_values, p.no_value, line_values-HasValues h) refl

module _ {W : Type 0} (w : World W) where
  -- For a file whose lines have the values of the variables, in order, and other things, `cycobj` is
  -- run with these values behind the flags for the scenario file and the address.
  -- If the objective file can be made and the penalty is a float, the file is written whatever
  -- `cycobj` does, and its text is a float: what it printed if that is one, and else the penalty.
  pub evaluate_float :
      (f : Flags) (text : String) (vs : List String)
      → w.creates ≡ true
      → w.params_file ≡ some text
      → HasValues (split is_line_end text) vs
      → is_some (w.parse_float (trim_space penalty)) ≡ true
      → (contents : String) × (evaluate w f ≡ some contents)
        × (contents ≡ objective_text w (w.cycobj (arguments f vs)))
        × (is_some (w.parse_float (trim_space contents)) ≡ true)
  unfolding evaluate parse_params objective_text
  evaluate_float f text vs c p h n = (
    objective_text w (w.cycobj (arguments f vs)),
    rw (evaluate, c, p, line_values-HasValues h) refl,
    refl,
    objective_float n (w.cycobj (arguments f vs)),
  )
    where
      objective_float :
          is_some (w.parse_float (trim_space penalty)) ≡ true
          → (o : Option String) → is_some (w.parse_float (trim_space (objective_text w o))) ≡ true
      objective_float q none = q
      objective_float q (some out) = elim (Bool-cases (is_some (w.parse_float (trim_space out)))) [
        | inl e ↦ rw (e, e) refl
        | inr e ↦ rw e q
      ]
