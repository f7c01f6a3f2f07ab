-- ===== src/Turn/Diagnostics.antt =====
-- src/agent/turn.ts: the diagnostics of a turn are the first of each kind.
use jupyter_plugin_aitermina.Base.{
  List, Text, listed, Option, Bool, map, text_eq, find, All, Distinct, ◌∷◌, ◌≡◌, false,
  Option-cases, [], if◌then◌else◌, none, inl, ◌++◌, listed-snoc, arith, some, inr, true, Bool-cases,
  ◌≢◌, refl, subst, sym, text_eq_iff, ◌∙◌, true-ne-false,
}
use jupyter_plugin_aitermina.Turn.Timeline.{
  diagnostics_from, derive_diagnostics, diagnostic_of, diagnostic_key,
}
use jupyter_plugin_aitermina.Turn.{TurnActivity, TurnDiagnostic}

-- The diagnostics of all activities, repetitions included.
unfoldable pub all_diagnostics : List TurnActivity → List TurnDiagnostic
all_diagnostics [] = []
all_diagnostics (a ∷ rest) = elim (diagnostic_of a) [
  | none ↦ all_diagnostics rest
  | some d ↦ d ∷ all_diagnostics rest
]

abbrev pub has_key : Text → TurnDiagnostic → Bool
has_key key d = text_eq (diagnostic_key d) key

abbrev pub keys : List TurnDiagnostic → List Text
keys = map diagnostic_key

abbrev pub Unlisted : List Text → Text → Type 0
Unlisted seen key = listed key seen ≡ false

unless-snoc :
    (seen : List Text) (key k : Text) (o : Option TurnDiagnostic)
    → text_eq k key ≡ false
    → (if listed key (seen ++ k ∷ []) then none else o) ≡ (if listed key seen then none else o)
unless-snoc seen key k o e = rw (listed-snoc key k seen) (ground arith)

module _ (seen : List Text) (a : TurnActivity) (rest : List TurnActivity) where
  without : diagnostic_of a ≡ none → diagnostics_from seen (a ∷ rest) ≡ diagnostics_from seen rest
  unfolding diagnostics_from
  without e = rw (e, diagnostics_from) refl

  module _ (d : TurnDiagnostic) (e : diagnostic_of a ≡ some d) where
    repeated :
        listed (diagnostic_key d) seen ≡ true
        → diagnostics_from seen (a ∷ rest) ≡ diagnostics_from seen rest
    unfolding diagnostics_from
    repeated k = rw (e, diagnostics_from) (rw k refl)

    added :
        listed (diagnostic_key d) seen ≡ false
        → diagnostics_from seen (a ∷ rest)
          ≡ d ∷ diagnostics_from (seen ++ diagnostic_key d ∷ []) rest
    unfolding diagnostics_from
    added k = rw (e, diagnostics_from) (rw k refl)

all_diagnostics-some :
    (a : TurnActivity) (rest : List TurnActivity) (d : TurnDiagnostic)
    → diagnostic_of a ≡ some d
    → all_diagnostics (a ∷ rest) ≡ d ∷ all_diagnostics rest
unfolding all_diagnostics
all_diagnostics-some a rest d e = rw (e, all_diagnostics) refl

all_diagnostics-none :
    (a : TurnActivity) (rest : List TurnActivity)
    → diagnostic_of a ≡ none
    → all_diagnostics (a ∷ rest) ≡ all_diagnostics rest
unfolding all_diagnostics
all_diagnostics-none a rest e = rw (e, all_diagnostics) refl

find_repeated :
    (key : Text) (seen : List Text) (d : TurnDiagnostic) (ds all : List TurnDiagnostic)
    → listed (diagnostic_key d) seen ≡ true
    → find (has_key key) ds ≡ (if listed key seen then none else find (has_key key) all)
    → find (has_key key) ds ≡ (if listed key seen then none else find (has_key key) (d ∷ all))
find_repeated key seen d ds all k h = elim (Bool-cases (has_key key d)) [
  | inl e ↦
      let there : listed key seen ≡ true =
        subst (λ z. listed z seen ≡ true) ((text_eq_iff _ _).0 e) k in
      h ∙ rw there refl
  | inr e ↦ h ∙ rw e refl
]

find_added :
    (key : Text) (seen : List Text) (d : TurnDiagnostic) (ds all : List TurnDiagnostic)
    → listed (diagnostic_key d) seen ≡ false
    → find (has_key key) ds
      ≡ (if listed key (seen ++ diagnostic_key d ∷ []) then none else find (has_key key) all)
    → find (has_key key) (d ∷ ds) ≡ (if listed key seen then none else find (has_key key) (d ∷ all))
find_added key seen d ds all k h = elim (Bool-cases (has_key key d)) [
  | inl e ↦
      let fresh : listed key seen ≡ false =
        subst (λ z. listed z seen ≡ false) ((text_eq_iff _ _).0 e) k in
      rw (e, fresh) refl
  | inr e ↦ rw e (h ∙ unless-snoc seen key (diagnostic_key d) _ e)
]

find-diagnostics_from :
    (key : Text) (seen : List Text) (timeline : List TurnActivity)
    → find (has_key key) (diagnostics_from seen timeline)
      ≡ (if listed key seen then none else find (has_key key) (all_diagnostics timeline))
find-diagnostics_from key seen [] = unfold diagnostics_from all_diagnostics in ground arith
find-diagnostics_from key seen (a ∷ rest) = elim (Option-cases (diagnostic_of a)) [
  | inl e ↦
      rw (without seen a rest e, all_diagnostics-none a rest e)
        (find-diagnostics_from key seen rest)
  | inr (d, e) ↦ elim (Bool-cases (listed (diagnostic_key d) seen)) [
    | inl k ↦
        rw (repeated seen a rest d e k, all_diagnostics-some a rest d e)
          (find_repeated key seen d _ _ k (find-diagnostics_from key seen rest))
    | inr k ↦
        rw (added seen a rest d e k, all_diagnostics-some a rest d e)
          (find_added key seen d _ _ k
            (find-diagnostics_from key (seen ++ diagnostic_key d ∷ []) rest))
  ]
]

All-Unlisted-snoc :
    (seen ks : List Text) (k : Text)
    → All (Unlisted (seen ++ k ∷ [])) ks
    → All (Unlisted seen) ks × All (λ t. t ≢ k) ks
All-Unlisted-snoc seen [] k h = (tt, tt)
All-Unlisted-snoc seen (t ∷ ks) k (p, h) =
    let (low, apart) = All-Unlisted-snoc seen ks k h in
    let both = sym (listed-snoc t k seen) ∙ p in
    let here : listed t seen ≡ false = ground (arith, both) in
    let other : text_eq k t ≡ false = ground (arith, both) in
    ((here, low), (λ e. true-ne-false (sym ((text_eq_iff k t).1 (sym e)) ∙ other), apart))

Distinct-diagnostics_from :
    (seen : List Text) (timeline : List TurnActivity)
    → All (Unlisted seen) (keys (diagnostics_from seen timeline))
      × Distinct (keys (diagnostics_from seen timeline))
Distinct-diagnostics_from seen [] = unfold diagnostics_from in (tt, tt)
Distinct-diagnostics_from seen (a ∷ rest) = elim (Option-cases (diagnostic_of a)) [
  | inl e ↦ rw (without seen a rest e) (Distinct-diagnostics_from seen rest)
  | inr (d, e) ↦ elim (Bool-cases (listed (diagnostic_key d) seen)) [
    | inl k ↦ rw (repeated seen a rest d e k) (Distinct-diagnostics_from seen rest)
    | inr k ↦
        let (new, apart) = Distinct-diagnostics_from (seen ++ diagnostic_key d ∷ []) rest in
        let (low, other) = All-Unlisted-snoc seen _ (diagnostic_key d) new in
        rw (added seen a rest d e k) ((k, low), (other, apart))
  ]
]

-- No two diagnostics of a turn say the same, and what is found under a title and a detail is the
-- first diagnostic with them among those of all activities.
pub derive_diagnostics-first :
    (timeline : List TurnActivity)
    → Distinct (keys (derive_diagnostics timeline))
      × ((key : Text)
          → find (has_key key) (derive_diagnostics timeline)
            ≡ find (has_key key) (all_diagnostics timeline))
unfolding derive_diagnostics
derive_diagnostics-first timeline =
    ((Distinct-diagnostics_from [] timeline).1, λ key. find-diagnostics_from key [] timeline)
