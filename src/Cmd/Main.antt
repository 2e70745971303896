-- ===== src/Cmd/Main.antt =====
-- `main`, `serve` and `fulladdr` of cmd/cloudlus/main.go: the choice of a subcommand, and what the
-- server is started with.
--
-- Flags are read by Go's `flag`; a record has their values. Addresses are lists of bytes.
use cloudlus.Base.{
  ◌*◌, Bool, true, false, not, ◌&&◌, Option, none, some, List, [], ◌∷◌, ◌++◌, String, if◌then◌else◌,
}
use cloudlus.Base.Int.{ℤ, pos, ◌*ℤ◌}
use cloudlus.Bytes.{Bytes}
use cloudlus.Client.{has_prefix, http}
use cloudlus.Job.{Job}
use cloudlus.Server.{Server, new_server}
use text.Mathlib.Text.{◌==◌ as str_eq}

pub data Command : Type 0 where
  serve work submit submit_infile retrieve pack unpack : Command

-- The map `cmds`
unfoldable pub command : String → Option Command
command name =
    if str_eq name "serve"
    then some serve
    else if str_eq name "work"
    then some work
    else if str_eq name "submit"
    then some submit
    else if str_eq name "submit-infile"
    then some submit_infile
    else if str_eq name "retrieve"
    then some retrieve
    else if str_eq name "pack"
    then some pack
    else if str_eq name "unpack"
    then some unpack
    else none

-- `main`: the subcommand with its arguments, or the usage text.
unfoldable pub choose : List String → Option (Command × List String)
unfolding command
choose [] = none
choose (name ∷ args) = elim (command name) [ none ↦ none | some c ↦ some (c, args) ]

unfoldable pub is_blank : Bytes → Bool
is_blank [] = true
is_blank (b ∷ bs) = false

-- `fulladdr`
unfoldable pub full_addr : Bytes → Bytes
unfolding has_prefix is_blank
full_addr addr = if not (has_prefix http addr) && not (is_blank addr) then http ++ addr else addr

pub record ServeFlags : Type 0 where
  pub addr : Bytes
  pub host : Bytes
  pub rpcaddr : Bytes
  pub dbpath : String
  -- In megabytes.
  pub dblimit : ℤ

-- What `serve` gives to `NewDB` and `NewServer`, and the host that it sets.
pub record Settings : Type 0 where
  pub addr : Bytes
  pub rpcaddr : Bytes
  pub host : Bytes
  pub limit : ℤ

-- `MB` of cloudlus/util.go
abbrev pub megabyte : ℤ
megabyte = pos (1024 * 1024)

unfoldable pub settings : ServeFlags → Settings
unfolding full_addr ◌*ℤ◌
settings f = record {
  addr = f.addr;
  rpcaddr = if is_blank f.rpcaddr then f.addr else f.rpcaddr;
  host = full_addr f.host;
  limit = f.dblimit *ℤ megabyte;
}

-- `serve` until it listens. `open_db` is `NewDB`; its error ends the program.
unfoldable pub start_serve :
    {D : Type 0}
    → (String → ℤ → Option D)
    → (D → List Job)
    → ServeFlags
    → Option (Settings × Server D)
unfolding settings new_server
start_serve open_db current f = elim (open_db f.dbpath (settings f).limit) [
  | none ↦ none
  | some d ↦ some (settings f, new_server d (current d))
]
