-- ===== src/Infer.antt =====
-- inference/infer.cc and define.cc: the `main` of the inference service. The network's object that
-- `TFInference::Get` gives, `atoi` and what a server does until it ends are parameters.
pub mod WarmUp
pub mod Tests
use astraea_open_source.Prelude.{
  ℕ, zero, suc, ℤ, pos, Bool, true, false, ltb, if◌then◌else◌, List, [], ◌∷◌, Option, none, some,
  replicate,
}
use astraea_open_source.Result.{Error, Result, ok, err, runtime_error, undefined, ◌>>=◌}
use astraea_open_source.Client.{same_text}
use astraea_open_source.Context.{input_size}
use astraea_open_source.Inference.{Inference, Session, inference_imdt}

-- The values of `getopt_long`.
pub data Flag : Type 0 where
  batch graph checkpoint channel question other : Flag

pub record Settings : Type 0 where
  pub batch_mode : ℤ
  pub graph_path : List ℕ
  pub checkpoint_path : List ℕ
  pub channel : List ℕ

-- `udp` and `unix`
abbrev pub udp : List ℕ
udp = 117 ∷ 100 ∷ 112 ∷ []

abbrev pub unix : List ℕ
unix = 117 ∷ 110 ∷ 105 ∷ 120 ∷ []

-- `models/my-model`
abbrev pub my_model : List ℕ
my_model =
    109 ∷ 111 ∷ 100 ∷ 101 ∷ 108 ∷ 115 ∷ 47 ∷ 109 ∷ 121 ∷ 45 ∷ 109 ∷ 111 ∷ 100 ∷ 101 ∷ 108 ∷ []

-- The values in define.cc; the graph's path is `models/my-model.meta`.
abbrev pub default_settings : List ℕ → Settings
default_settings meta = record {
  batch_mode = pos 0;
  graph_path = meta;
  checkpoint_path = my_model;
  channel = unix;
}

-- How the program ends: with a status, or by an exception that nobody catches or undefined behaviour.
pub data Ending : Type 0 where
  exits : ℕ → Ending
  dies : Error → Ending

-- What a part of `main` gives, unless the program ends in it.
pub data Stage (A : Type 0) : Type 0 where
  goes : A → Stage A
  stops : Ending → Stage A

-- A setting from `optarg`, which an optional argument can leave null.
abbrev pub assign : Option (List ℕ) → (List ℕ → Settings) → Stage Settings
assign none f = stops (dies undefined)
assign (some text) f = goes (f text)

module _ (atoi : List ℕ → ℤ) where
  -- The `switch`; `usage_error` exits with 1.
  unfoldable pub set_option : Flag → Option (List ℕ) → Settings → Stage Settings
  set_option batch arg s = assign arg (λ t. record s { batch_mode = atoi t })
  set_option graph arg s = assign arg (λ t. record s { graph_path = t })
  set_option checkpoint arg s = assign arg (λ t. record s { checkpoint_path = t })
  set_option channel arg s = assign arg (λ t. record s { channel = t })
  set_option question arg s = stops (exits 1)
  set_option other arg s = stops (exits 1)

  unfoldable pub parse : List (Flag × Option (List ℕ)) → Settings → Stage Settings
  parse [] s = goes s
  parse ((flag, arg) ∷ rest) s = elim (set_option flag arg s) [
    | goes s' ↦ parse rest s'
    | stops e ↦ stops e
  ]

-- What `main` does outside: it removes the socket's file, and runs a server.
pub data Run : Type 0 where
  unlink run_udp run_unix : Run

-- The choice of the server. The exception for a channel that there is not is caught, and so is any
-- that a server throws; either is printed, and `main` goes on to its `return 0`.
unfoldable pub serve : List ℕ → List Run
serve name =
    if same_text name udp
    then run_udp ∷ []
    else (if same_text name unix then unlink ∷ run_unix ∷ [] else [])

module _ {C R O : Type 0} (call : C → R → Option O) (session : Session R) (zero_value : R)
    (noop : C) where
  -- The first requests, of zeros, for the flow 0.
  unfoldable pub warm_up : ℕ → Inference C R O → Result (Inference C R O)
  warm_up zero s = ok s
  warm_up (suc n) s =
      let (after, answer) =
        inference_imdt call session s (pos 0) (replicate input_size zero_value) noop in
      answer >>= λ action. warm_up n after

  -- `main`: what it runs, and how it ends once the servers have ended.
  unfoldable pub main :
      (List ℕ → ℤ)
      → List ℕ
      → ℕ
      → List (Flag × Option (List ℕ))
      → Inference C R O
      → List Run × Ending
  unfolding serve warm_up parse
  main atoi meta argc args network =
      if ltb argc 2 then ([], exits 1) else elim (parse atoi args (default_settings meta)) [
        | stops e ↦ ([], e)
        | goes s ↦ elim (warm_up 100 network) [
          | err e ↦ ([], dies e)
          | ok ready ↦ (serve s.channel, exits 0)
        ]
      ]
