-- ===== src/Cmd/Condor/Ssh.antt =====
-- `copyFile`, `combined` and `Hop` of cmd/condorbots/condorbots.go, over the library ssh.
use cloudlus.Base.{
  Bool, false, not, ◌&&◌, Option, none, some, List, [], ◌∷◌, String, join, if◌then◌else◌,
}

-- What the calls of one session return.
pub record Session : Type 0 where
  pub opens : Bool
  pub has_pipe : Bool
  -- Whether all of the file is written to the pipe.
  pub copies : Bool
  -- Whether the command ends without an error.
  pub waits : Bool
  pub output : Option String

-- What is done on the submit node: a command that is started, the file that goes into it, and the end
-- of its input.
pub data Remote : Type 0 where
  started : String → Remote
  fed : Remote
  input_closed : Remote

-- `copyFile`: what was done, and whether it returns no error. The error of `Start` is not looked at.
unfoldable pub copy_file : Session → String → List Remote × Bool
copy_file s path =
    if not (s.opens && s.has_pipe)
    then ([], false)
    else (let tee = started (join "tee " path) in
        if not s.copies then (tee ∷ [], false) else (tee ∷ fed ∷ input_closed ∷ [], s.waits))

-- `combined`
unfoldable pub combined : Session → Option String
combined s = if not s.opens then none else s.output

-- `Hop`: a client for the connection through another one, if it is made and its handshake succeeds.
unfoldable pub hop : {C K : Type 0} → Option C → (C → Option K) → Option K
hop conn handshake = elim conn [ none ↦ none | some c ↦ handshake c ]
