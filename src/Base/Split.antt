-- ===== src/Base/Split.antt =====
-- `split` at one code unit and `join` of the source's strings.
use jupyter_plugin_aitermina.Base.Tests.{◌==◌, if◌then◌else◌, Bool-cases}
use jupyter_plugin_aitermina.Base.Strings.{Text}
use jupyter_plugin_aitermina.Base.Lists.{length, take, drop, All}
use Prim.Native.Nat.{ℕ, zero, suc, ◌+◌, ◌<◌}
use mathlib.Core.Path.{◌≡◌, refl, ap, sym, ◌∙◌, subst}
use mathlib.Core.Logic.{inl, inr}
use mathlib.Core.Bool.{true, false}
use mathlib.Core.List.{List, [], ◌∷◌, ◌++◌, append-nil, append_assoc}
use native.Mathlib.Omega.{arith}

-- The code unit goes to the front of the first piece.
abbrev pub onto_first : ℕ → List Text → List Text
onto_first x [] = (x ∷ []) ∷ []
onto_first x (piece ∷ pieces) = (x ∷ piece) ∷ pieces

-- `s.split(c)`
unfoldable pub split : ℕ → Text → List Text
split c [] = [] ∷ []
split c (x ∷ s) = let rest = split c s in if x == c then [] ∷ rest else onto_first x rest

-- `pieces.join(separator)`
unfoldable pub join : Text → List Text → Text
join separator [] = []
join separator (piece ∷ []) = piece
join separator (piece ∷ next ∷ pieces) = piece ++ (separator ++ join separator (next ∷ pieces))

-- The number of pieces that `split` gives.
abbrev pub pieces : ℕ → Text → ℕ
pieces c s = length (split c s)

join-onto_first :
    (c x : ℕ) (p : Text) (ps : List Text)
    → join (c ∷ []) (onto_first x (p ∷ ps)) ≡ x ∷ join (c ∷ []) (p ∷ ps)
unfolding join
join-onto_first c x p [] = refl
join-onto_first c x p (q ∷ ps) = refl

-- `split` gives at least one piece.
split-cons : (c : ℕ) (s : Text) → (p : Text) × (ps : List Text) × (split c s ≡ p ∷ ps)
unfolding split
split-cons c [] = ([], [], refl)
split-cons c (x ∷ s) =
    let (p, ps, e) = split-cons c s in
    elim (Bool-cases (x == c)) [
      | inl k ↦ rw k ([], split c s, refl)
      | inr k ↦ rw (k, e) (x ∷ p, ps, refl)
    ]

join-cons :
    (c : ℕ) (p : Text) (ps : List Text) → join (c ∷ []) ([] ∷ p ∷ ps) ≡ c ∷ join (c ∷ []) (p ∷ ps)
unfolding join
join-cons c p ps = refl

pub join-split : (c : ℕ) (s : Text) → join (c ∷ []) (split c s) ≡ s
unfolding split
join-split c [] = unfold join in refl
join-split c (x ∷ s) =
    let (p, ps, e) = split-cons c s in
    let rest : join (c ∷ []) (p ∷ ps) ≡ s = ap (join (c ∷ [])) (sym e) ∙ join-split c s in
    elim (Bool-cases (x == c)) [
      | inl k ↦
          let same : x ≡ c = ground arith in
          rw (k, e) (join-cons c p ps ∙ ap (◌∷◌ c) rest ∙ ap (λ y. y ∷ s) (sym same))
      | inr k ↦ rw (k, e) (join-onto_first c x p ps ∙ ap (◌∷◌ x) rest)
    ]

length-onto_first :
    (x : ℕ) (p : Text) (ps : List Text) → length (onto_first x (p ∷ ps)) ≡ suc (length ps)
length-onto_first x p ps = refl

pub pieces-pos : (c : ℕ) (s : Text) → 0 < pieces c s
pieces-pos c s = let (p, ps, e) = split-cons c s in rw e (omega arith)

pieces-cons-same : (c x : ℕ) (s : Text) → (x == c) ≡ true → pieces c (x ∷ s) ≡ suc (pieces c s)
unfolding split
pieces-cons-same c x s k = rw k

pieces-cons-other : (c x : ℕ) (s : Text) → (x == c) ≡ false → pieces c (x ∷ s) ≡ pieces c s
unfolding split
pieces-cons-other c x s k = let (p, ps, e) = split-cons c s in rw (k, e) refl

pub pieces-append : (c : ℕ) (s t : Text) → pieces c (s ++ t) + 1 ≡ pieces c s + pieces c t
pieces-append c [] t = unfold split in omega arith
pieces-append c (x ∷ s) t = elim (Bool-cases (x == c)) [
  | inl k ↦
      omega (arith, pieces-cons-same c x s k, pieces-cons-same c x (s ++ t) k, pieces-append c s t)
  | inr k ↦
      omega
        (arith, pieces-cons-other c x s k, pieces-cons-other c x (s ++ t) k, pieces-append c s t)
]

unfoldable pub IsPiece : ℕ → Text → Type 0
IsPiece c s = pieces c s ≡ 1

All-onto_first :
    (c x : ℕ) (p : Text) (ps : List Text)
    → (x == c) ≡ false
    → All (IsPiece c) (p ∷ ps)
    → All (IsPiece c) (onto_first x (p ∷ ps))
unfolding IsPiece
All-onto_first c x p ps k (h, hs) = (pieces-cons-other c x p k ∙ h, hs)

pub split-IsPiece : (c : ℕ) (s : Text) → All (IsPiece c) (split c s)
unfolding split
split-IsPiece c [] = (unfold IsPiece split in refl, tt)
split-IsPiece c (x ∷ s) =
    let (p, ps, e) = split-cons c s in
    elim (Bool-cases (x == c)) [
      | inl k ↦ rw k (unfold IsPiece split in refl, split-IsPiece c s)
      | inr k ↦
          rw (k, e) (All-onto_first c x p ps k (subst (All (IsPiece c)) e (split-IsPiece c s)))
    ]

-- The pieces of what is joined are as many as were joined.
pub pieces-join :
    (c : ℕ) (p : Text) (ps : List Text)
    → All (IsPiece c) (p ∷ ps)
    → pieces c (join (c ∷ []) (p ∷ ps)) ≡ suc (length ps)
unfolding IsPiece join
pieces-join c p [] (h, hs) = h
pieces-join c p (q ∷ ps) (h, hs) =
    let rest = join (c ∷ []) (q ∷ ps) in
    let one : (c == c) ≡ true = ground arith in
    omega
      (arith, h, pieces-append c p (c ∷ rest), pieces-cons-same c c rest one, pieces-join c q ps hs)

-- What is joined of the first pieces is a beginning, and of the last an end, of the whole.
pub join-take :
    (c : ℕ) (n : ℕ) (ps : List Text)
    → (rest : Text) × (join (c ∷ []) (take n ps) ++ rest ≡ join (c ∷ []) ps)
unfolding join
join-take c zero ps = (join (c ∷ []) ps, refl)
join-take c (suc n) [] = ([], refl)
join-take c (suc zero) (p ∷ []) = ([], append-nil p)
join-take c (suc zero) (p ∷ q ∷ ps) = (c ∷ join (c ∷ []) (q ∷ ps), refl)
join-take c (suc (suc n)) (p ∷ []) = ([], append-nil p)
join-take c (suc (suc n)) (p ∷ q ∷ ps) =
    let (rest, e) = join-take c (suc n) (q ∷ ps) in
    (rest, append_assoc p (c ∷ join (c ∷ []) (take (suc n) (q ∷ ps))) rest ∙ ap (λ r. p ++ c ∷ r) e)

pub join-drop :
    (c : ℕ) (n : ℕ) (ps : List Text)
    → (rest : Text) × (rest ++ join (c ∷ []) (drop n ps) ≡ join (c ∷ []) ps)
unfolding join
join-drop c zero ps = ([], refl)
join-drop c (suc n) [] = ([], refl)
join-drop c (suc zero) (p ∷ []) = (p, append-nil p)
join-drop c (suc (suc n)) (p ∷ []) = (p, append-nil p)
join-drop c (suc n) (p ∷ q ∷ ps) =
    let (rest, e) = join-drop c n (q ∷ ps) in
    (
      p ++ c ∷ rest,
      append_assoc p (c ∷ rest) (join (c ∷ []) (drop n (q ∷ ps))) ∙ ap (λ r. p ++ c ∷ r) e,
    )
