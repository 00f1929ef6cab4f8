-- ===== src/Infer/Tests.antt =====
-- The theorem on inference/infer.cc, for a channel that there is not.
use astraea_open_source.Prelude.{ℕ, ℤ, pos, false, List, [], ◌∷◌, Option, none, some}
use astraea_open_source.Inference.{Inference}
use astraea_open_source.Infer.{Flag, channel}

-- Numbers are integers, the network answers 7, and a callback sends nothing.
abbrev network : Inference (Unit {0}) ℤ ℕ
network = record { queue = []; callbacks = []; keep_running = false; sent = [] }

abbrev call : Unit {0} → ℤ → Option ℕ
call c action = none

abbrev session : List (List ℤ) → Option (List ℤ)
session rows = some (pos 7 ∷ [])

abbrev args : List (Flag × Option (List ℕ))
args = (channel, some (116 ∷ 99 ∷ 112 ∷ [])) ∷ []
