-- ===== src/Client.antt =====
-- The client of cloudlus/client.go: the loop that sends heartbeats, and waiting for a job.
--
-- `Retrieve`, `Fetch`, `Submit` and `Push` only pass the answer of a call on. The answers of the calls of RPC are arguments. The texts of `Dial` are lists of bytes.
use cloudlus.Base.{
  ℕ, suc, ◌≡◌, refl, Bool, true, false, not, ◌||◌, Option, none, some, List, [], ◌∷◌, ◌++◌, ◌==◌,
  if◌then◌else◌,
}
use cloudlus.Bytes.{Bytes}
use cloudlus.Job.{Job}

-- `strings.Contains(addr, ":")` and `strings.HasPrefix`
unfoldable pub has_byte : ℕ → Bytes → Bool
has_byte c [] = false
has_byte c (b ∷ bs) = (b == c) || has_byte c bs

unfoldable pub has_prefix : Bytes → Bytes → Bool
has_prefix [] bs = true
has_prefix (c ∷ cs) [] = false
has_prefix (c ∷ cs) (b ∷ bs) = if b == c then has_prefix cs bs else false

-- ":80" and "http://"
abbrev pub port_80 : Bytes
port_80 = b':' ∷ b'8' ∷ b'0' ∷ []

abbrev pub http : Bytes
http = b'h' ∷ b't' ∷ b't' ∷ b'p' ∷ b':' ∷ b'/' ∷ b'/' ∷ []

-- `Dial`: the address that is dialled, and the one that the client keeps for requests.
unfoldable pub dial_address : Bytes → Bytes
unfolding has_byte
dial_address addr = if has_byte b':' addr then addr else addr ++ port_80

unfoldable pub dial : (Bytes → Bool) → Bytes → Option Bytes
unfolding dial_address has_prefix
dial reaches addr =
    let a = dial_address addr in
    if not (reaches a) then none else some (if has_prefix http a then a else http ++ a)

-- What the loop of `Heartbeat` receives: a tick, with the answer of the call, or its error; or the
-- end of the job.
pub data Turn : Type 0 where
  tick : Option Bool → Turn
  job_over : Turn

-- What the loop did: how many beats it sent, whether it sent the kill signal, and whether it ended.
pub record Beats : Type 0 where
  pub sent : ℕ
  pub killed : Bool
  pub ended : Bool

-- `Heartbeat`: it ends at the first error too.
unfoldable pub beat_loop : List Turn → ℕ → Beats
beat_loop [] n = record { sent = n; killed = false; ended = false }
beat_loop (job_over ∷ ts) n = record { sent = n; killed = false; ended = true }
beat_loop (tick none ∷ ts) n = record { sent = suc n; killed = false; ended = true }
beat_loop (tick (some true) ∷ ts) n = record { sent = suc n; killed = true; ended = true }
beat_loop (tick (some false) ∷ ts) n = beat_loop ts (suc n)

-- `Start`: what is sent on the channel for the answer of `RPC.Submit`, and the error that is kept.
unfoldable pub start_result : Option Job → Option Job × Bool
start_result none = (none, true)
start_result (some j) = (some j, false)

-- `Run`, for a client that has no other call under way: an error is `none`.
unfoldable pub run_result : Option Job → Option (Option Job)
unfolding start_result
run_result answer =
    let (result, failed) = start_result answer in if failed then none else some result

-- Once the loop ended, whatever comes then changes nothing: no beat is sent after an error, a kill signal or
-- the end of the job, and the signal is sent once at most.
beat_loop-append :
    (xs ys : List Turn) (n : ℕ)
    → let b = beat_loop xs n in
      beat_loop (xs ++ ys) n ≡ (if b.ended then b else beat_loop ys b.sent)
unfolding beat_loop
beat_loop-append [] ys n = refl
beat_loop-append (job_over ∷ xs) ys n = refl
beat_loop-append (tick none ∷ xs) ys n = refl
beat_loop-append (tick (some true) ∷ xs) ys n = refl
beat_loop-append (tick (some false) ∷ xs) ys n = beat_loop-append xs ys (suc n)
