-- ===== src/Inference/Flows.antt =====
-- Lists of flow ids, for the flows whose requests the service of inference/tf_inference.cc holds.
use astraea_open_source.Prelude.{
  ◌≡◌, refl, ap, ◌⊎◌, inl, inr, ℤ, true, false, List, [], ◌∷◌, ◌++◌, length, arith, ◌==ℤ◌, ==ℤ_iff,
}

-- The flow is none of the list's.
abbrev pub IsFresh : ℤ → List ℤ → Type 0
IsFresh f [] = Unit {0}
IsFresh f (g ∷ gs) = ((g ==ℤ f) ≡ false) × IsFresh f gs

abbrev pub IsDistinct : List ℤ → Type 0
IsDistinct [] = Unit {0}
IsDistinct (f ∷ fs) = IsFresh f fs × IsDistinct fs

abbrev pub Has : ℤ → List ℤ → Type 0
Has f [] = ⊥
Has f (g ∷ gs) = ((g ==ℤ f) ≡ true) ⊎ Has f gs

pub IsFresh-append :
    (f g : ℤ) (fs : List ℤ) → IsFresh f fs → (g ==ℤ f) ≡ false → IsFresh f (fs ++ (g ∷ []))
IsFresh-append f g [] h e = (e, tt)
IsFresh-append f g (k ∷ fs) h e = (h.0, IsFresh-append f g fs h.1 e)

pub ==ℤ_comm : (f g : ℤ) → (f ==ℤ g) ≡ false → (g ==ℤ f) ≡ false
==ℤ_comm f g h = ground (arith, ==ℤ_iff f g, ==ℤ_iff g f)

pub IsDistinct-append :
    (g : ℤ) (fs : List ℤ) → IsDistinct fs → IsFresh g fs → IsDistinct (fs ++ (g ∷ []))
IsDistinct-append g [] d h = (tt, tt)
IsDistinct-append g (f ∷ fs) d h =
    (IsFresh-append f g fs d.0 (==ℤ_comm f g h.0), IsDistinct-append g fs d.1 h.1)

pub Has-ne : (f g : ℤ) (fs : List ℤ) → Has f fs → IsFresh g fs → (g ==ℤ f) ≡ false
Has-ne f g [] m h = absurd m
Has-ne f g (k ∷ fs) (inl e) h = ground (arith, ==ℤ_iff k f, ==ℤ_iff k g, ==ℤ_iff g f, h.0)
Has-ne f g (k ∷ fs) (inr m) h = Has-ne f g fs m h.1

pub Has-append : (f g : ℤ) (fs : List ℤ) → Has f fs → Has f (fs ++ (g ∷ []))
Has-append f g [] m = absurd m
Has-append f g (k ∷ fs) (inl e) = inl e
Has-append f g (k ∷ fs) (inr m) = inr (Has-append f g fs m)

abbrev pub ids : {A : Type 0} → List (ℤ × A) → List ℤ
ids [] = []
ids (r ∷ rs) = r.0 ∷ ids rs

pub ids-append :
    {A : Type 0} (rs : List (ℤ × A)) (f : ℤ) (a : A)
    → ids (rs ++ ((f, a) ∷ [])) ≡ ids rs ++ (f ∷ [])
ids-append [] f a = refl
ids-append (r ∷ rs) f a = ap (◌∷◌ r.0) (ids-append rs f a)

-- The actions of a batch, each with the flow that asked for it.
abbrev pub pair_up : {A B : Type 0} → List (ℤ × A) → List B → List (ℤ × B)
pair_up [] bs = []
pair_up (r ∷ rs) [] = []
pair_up (r ∷ rs) (b ∷ bs) = (r.0, b) ∷ pair_up rs bs

pub ids-pair_up :
    {A B : Type 0} (rs : List (ℤ × A)) (bs : List B)
    → length bs ≡ length rs
    → ids (pair_up rs bs) ≡ ids rs
ids-pair_up [] bs h = refl
ids-pair_up (r ∷ rs) [] h = absurd (omega arith)
ids-pair_up (r ∷ rs) (b ∷ bs) h = ap (◌∷◌ r.0) (ids-pair_up rs bs (omega arith))
