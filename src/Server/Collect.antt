-- ===== src/Server/Collect.antt =====
-- The life of a server outside its dispatcher: `ListenAndServe`, with the loop that collects garbage,
-- and `Close`, of cloudlus/server.go.
--
-- A round of the loop looks whether the server was closed, and then runs the `GC` of the database,
-- which is the argument `gc`: what it leaves, and how many jobs it removed.
use cloudlus.Base.{ℕ, ◌+◌, Bool, true, false, List, [], ◌∷◌}
use cloudlus.Time.{Time}
use cloudlus.Server.{Server}

-- The start of `ListenAndServe`.
unfoldable pub start_stats : {D : Type 0} → Time → Server D → Server D
start_stats now s = record s { stats = record s.stats { started = now } }

module _ {D : Type 0} (gc : Time → D → D × ℕ) where
  unfoldable pub collect_round : Time → Server D → Server D
  collect_round now s =
      let (d, n) = gc now s.alljobs in
      record s { alljobs = d; stats = record s.stats { npurged = s.stats.npurged + n } }

  -- The loop, from the times of its rounds and whether the server was closed before each.
  unfoldable pub collect_loop : List (Time × Bool) → Server D → Server D
  unfolding collect_round
  collect_loop [] s = s
  collect_loop ((now, true) ∷ rounds) s = s
  collect_loop ((now, false) ∷ rounds) s = collect_loop rounds (collect_round now s)

-- `Close`: whether the loop ends at its next round, and the error of closing the database.
unfoldable pub close_server : {D : Type 0} → (D → Bool) → Server D → Bool × Bool
close_server closes s = (true, closes s.alljobs)
