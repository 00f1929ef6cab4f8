-- ===== src/Json.antt =====
-- The part of nlohmann::json that the program calls. The library is no code of the repository, so
-- it is a parameter: a record of its operations, and the laws that the theorems rest on.
pub mod Tokens
use astraea_open_source.Prelude.{
  ℕ, ◌≤◌, ◌<◌, ◌≡◌, ℤ, pos, Bool, ◌==◌, if◌then◌else◌, List, Option, none, some, length,
}

-- The keys that the source writes as string literals.
pub data Key : Type 0 where
  state flow_id tun_id type observer step cwnd : Key
  min_rtt avg_urtt cnt avg_thr thr_cnt pacing_rate loss_bytes srtt_us snd_ssthresh : Key
  retrans_out packets_out max_packets_out mss_cache max_tput loss_ratio time_delta : Key
  finish id msg : Key

abbrev pub key_code : Key → ℕ
key_code state = 0
key_code flow_id = 1
key_code tun_id = 2
key_code type = 3
key_code observer = 4
key_code step = 5
key_code cwnd = 6
key_code min_rtt = 7
key_code avg_urtt = 8
key_code cnt = 9
key_code avg_thr = 10
key_code thr_cnt = 11
key_code pacing_rate = 12
key_code loss_bytes = 13
key_code srtt_us = 14
key_code snd_ssthresh = 15
key_code retrans_out = 16
key_code packets_out = 17
key_code max_packets_out = 18
key_code mss_cache = 19
key_code max_tput = 20
key_code loss_ratio = 21
key_code time_delta = 22
key_code finish = 23
key_code id = 24
key_code msg = 25

abbrev pub key_eq : Key → Key → Bool
key_eq j k = key_code j == key_code k

-- `J` is the type `json`, `R` that of the floating-point numbers, and a text is a list of bytes.
pub record Json (J R : Type 0) : Type 0 where
  -- `json()` and `json({})`; `empty()`
  pub object : J
  pub is_empty : J → Bool
  -- `j[key] = v`, and reading `j.at(key)` or `j[key]`: `none` is the exception
  pub put : J → Key → J → J
  pub at : J → Key → Option J
  -- the conversions from numbers and texts, and to them: `none` is the exception
  pub of_int : ℤ → J
  pub of_real : R → J
  pub of_text : List ℕ → J
  pub to_int : J → Option ℤ
  pub to_real : J → Option R
  -- the text of a value, and `json::parse`
  pub dump : J → List ℕ
  pub parse : List ℕ → Option J

-- The documented behaviour that the theorems use. A value is `Printable` if its text stands for it,
-- which a NaN in it would spoil.
pub record JsonLaws {J R : Type 0} (json : Json J R) : Type 1 where
  pub at-put :
      (j : J) (k i : Key) (v : J)
      → json.at (json.put j k v) i ≡ (if key_eq k i then some v else json.at j i)
  pub to_int-of_int : (n : ℤ) → json.to_int (json.of_int n) ≡ some n
  pub Printable : J → Type 0
  pub object-Printable : Printable json.object
  pub put-Printable :
      (j : J) (k : Key) (v : J) → Printable j → Printable v → Printable (json.put j k v)
  pub of_int-Printable : (n : ℤ) → Printable (json.of_int n)
  pub parse-dump : (j : J) → Printable j → json.parse (json.dump j) ≡ some j
  pub dump_ne : (j : J) → 0 < length (json.dump j)
