-- ===== src/Json/Tokens.antt =====
-- A value of the interface, for the witnesses: objects as binary trees, their text as prefix code,
-- and floating-point numbers as thousandths.
use native.Mathlib.Nat.{le_refl}
use astraea_open_source.Prelude.{
  ℕ, zero, suc, ◌≤◌, ◌<◌, ◌≡◌, refl, ap, sym, ◌∙◌, ℤ, pos, negsuc, true, false, ◌==◌, if◌then◌else◌,
  List, [], ◌∷◌, ◌++◌, append_assoc, append-nil, Option, none, some, length, length-append, take,
  drop, take-append_self, drop-append_self, arith,
}
use astraea_open_source.Json.{Json, JsonLaws, Key, key_code}

pub data Tree : Type 0 where
  empty : Tree
  num neg real real_neg : ℕ → Tree
  text : List ℕ → Tree
  field : ℕ → Tree → Tree → Tree

unfoldable pub print : Tree → List ℕ
print empty = 0 ∷ []
print (num n) = 1 ∷ n ∷ []
print (neg n) = 2 ∷ n ∷ []
print (real n) = 3 ∷ n ∷ []
print (real_neg n) = 4 ∷ n ∷ []
print (text s) = 5 ∷ length s ∷ s
print (field k v rest) = 6 ∷ k ∷ (print v ++ print rest)

-- Reads the field's second tree where its first one ends.
abbrev join :
    ℕ → Option (Tree × List ℕ) → (List ℕ → Option (Tree × List ℕ)) → Option (Tree × List ℕ)
join k none f = none
join k (some (v, r)) f = elim (f r) [ none ↦ none | some (rest, s) ↦ some (field k v rest, s) ]

unfoldable pub read_tree : ℕ → List ℕ → Option (Tree × List ℕ)
read_tree zero ts = none
read_tree (suc f) (zero ∷ ts) = some (empty, ts)
read_tree (suc f) (suc zero ∷ n ∷ ts) = some (num n, ts)
read_tree (suc f) (suc (suc zero) ∷ n ∷ ts) = some (neg n, ts)
read_tree (suc f) (suc (suc (suc zero)) ∷ n ∷ ts) = some (real n, ts)
read_tree (suc f) (suc (suc (suc (suc zero))) ∷ n ∷ ts) = some (real_neg n, ts)
read_tree (suc f) (suc (suc (suc (suc (suc zero)))) ∷ n ∷ ts) = some (text (take n ts), drop n ts)
read_tree (suc f) (suc (suc (suc (suc (suc (suc zero))))) ∷ k ∷ ts) =
    join k (read_tree f ts) (read_tree f)
read_tree (suc f) _ = none

abbrev finished : Option (Tree × List ℕ) → Option Tree
finished (some (t, [])) = some t
finished _ = none

unfoldable pub parse_tree : List ℕ → Option Tree
unfolding read_tree
parse_tree ts = finished (read_tree (length ts) ts)

read_tree-print :
    (f : ℕ) (t : Tree) (rest : List ℕ)
    → length (print t) ≤ f
    → read_tree f (print t ++ rest) ≡ some (t, rest)
unfolding read_tree print
read_tree-print zero empty rest h = absurd (omega arith)
read_tree-print zero (num n) rest h = absurd (omega arith)
read_tree-print zero (neg n) rest h = absurd (omega arith)
read_tree-print zero (real n) rest h = absurd (omega arith)
read_tree-print zero (real_neg n) rest h = absurd (omega arith)
read_tree-print zero (text s) rest h = absurd (omega arith)
read_tree-print zero (field k v t) rest h = absurd (omega arith)
read_tree-print (suc f) empty rest h = refl
read_tree-print (suc f) (num n) rest h = refl
read_tree-print (suc f) (neg n) rest h = refl
read_tree-print (suc f) (real n) rest h = refl
read_tree-print (suc f) (real_neg n) rest h = refl
read_tree-print (suc f) (text s) rest h = rw (take-append_self s rest, drop-append_self s rest)
read_tree-print (suc f) (field k v t) rest h = rw (
  append_assoc (print v) (print t) rest,
  read_tree-print f v (print t ++ rest) (omega (arith, length-append (print v) (print t))),
  read_tree-print f t rest (omega (arith, length-append (print v) (print t))),
)

pub parse_tree-print : (t : Tree) → parse_tree (print t) ≡ some t
unfolding parse_tree
parse_tree-print t =
    ap (λ ts. finished (read_tree (length (print t)) ts)) (sym (append-nil (print t)))
    ∙ ap finished (read_tree-print (length (print t)) t [] (le_refl _))

pub print_ne : (t : Tree) → 0 < length (print t)
unfolding print
print_ne empty = omega arith
print_ne (num n) = omega arith
print_ne (neg n) = omega arith
print_ne (real n) = omega arith
print_ne (real_neg n) = omega arith
print_ne (text s) = omega arith
print_ne (field k v t) = omega arith

abbrev pub find : Tree → Key → Option Tree
find (field j v rest) k = if j == key_code k then some v else find rest k
find _ k = none

abbrev pub int_of : Tree → Option ℤ
int_of (num n) = some (pos n)
int_of (neg n) = some (negsuc n)
int_of _ = none

abbrev pub real_of : Tree → Option ℤ
real_of (real n) = some (pos n)
real_of (real_neg n) = some (negsuc n)
real_of _ = none

abbrev pub tree_json : Json Tree ℤ
tree_json = record {
  object = empty;
  is_empty = elim [ empty ↦ true | _ ↦ false ];
  put = λ j k v. field (key_code k) v j;
  at = find;
  of_int = elim [ pos n ↦ num n | negsuc n ↦ neg n ];
  of_real = elim [ pos n ↦ real n | negsuc n ↦ real_neg n ];
  of_text = text;
  to_int = int_of;
  to_real = real_of;
  dump = print;
  parse = parse_tree;
}

pub int_of-of_int : (n : ℤ) → int_of (tree_json.of_int n) ≡ some n
int_of-of_int (pos n) = refl
int_of-of_int (negsuc n) = refl

abbrev pub tree_json_laws : JsonLaws tree_json
tree_json_laws = record {
  at-put = λ j k i v. refl;
  to_int-of_int = int_of-of_int;
  Printable = λ j. Unit {0};
  object-Printable = tt;
  put-Printable = λ j k v p q. tt;
  of_int-Printable = λ n. tt;
  parse-dump = λ j p. parse_tree-print j;
  dump_ne = print_ne;
}
