-- ===== src/Infer/WarmUp.antt =====
-- The first requests of inference/infer.cc, and the status of the program.
use astraea_open_source.Prelude.{List, [], ◌∷◌, Option, replicate}
use astraea_open_source.Context.{input_size}
use astraea_open_source.Inference.{Inference, Session, prepare_batch_input}

module _ {C R O : Type 0} (call : C → R → Option O) (session : Session R) (zero_value : R)
    (noop : C) where
  -- The row of zeros that the network is asked.
  abbrev pub zeros : List (List R)
  zeros = prepare_batch_input call session (replicate input_size zero_value ∷ []) 1
