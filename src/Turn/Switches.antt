-- ===== src/Turn/Switches.antt =====
-- src/agent/turn.ts: each switch changes what it names and nothing else.
use jupyter_plugin_aitermina.Turn.Presentation.{toggle_trace, toggle_id, is_trace_expanded}
use jupyter_plugin_aitermina.Base.{
  Text, List, keep, ◌≡◌, not, ◌∷◌, ◌||◌, if◌then◌else◌, Bool-cases, [], text_eq, arith, inl, ◌∙◌,
  ◌&&◌, text_eq_iff, inr, true, refl, subst, Bool, sym, false, listed, to_set, add_to_set,
  listed-snoc,
}
use jupyter_plugin_aitermina.Turn.{ChatTurn}

-- A switch of the trace shows what was hidden and hides what was shown, whether the user or the
-- status of the turn had decided it.
pub toggle_trace-flips :
    (t : ChatTurn) → is_trace_expanded (toggle_trace t) ≡ not (is_trace_expanded t)
unfolding toggle_trace
toggle_trace-flips t = elim (Bool-cases (is_trace_expanded t)) [
  | inl e ↦ rw e refl
  | inr e ↦ rw e refl
]

listed-add_to_set :
    (s x : Text) (set : List Text) → listed s (add_to_set x set) ≡ (listed s set || text_eq x s)
listed-add_to_set s x set = elim (Bool-cases (listed x set)) [
  | inl e ↦ rw e (elim (Bool-cases (text_eq x s)) [
    | inl k ↦
        let same = (text_eq_iff x s).0 k in
        let there : listed s set ≡ true = subst (λ z. listed z set ≡ true) same e in ground arith
    | inr k ↦ ground arith
  ])
  | inr e ↦ rw e (listed-snoc s x set)
]

listed-to_set :
    (s : Text) (set xs : List Text) → listed s (to_set set xs) ≡ (listed s set || listed s xs)
unfolding to_set
listed-to_set s set [] = ground arith
listed-to_set s set (x ∷ xs) =
    listed-to_set s (add_to_set x set) xs ∙ ground (arith, listed-add_to_set s x set)

listed-keep :
    (s id : Text) (xs : List Text)
    → listed s (keep (λ x. not (text_eq x id)) xs) ≡ (listed s xs && not (text_eq id s))
listed-keep s id [] = refl
listed-keep s id (x ∷ xs) =
    ground (arith, listed-keep s id xs, text_eq_iff x id, text_eq_iff x s, text_eq_iff id s)

taken_out : (a b c d : Bool) → a ≡ b → c ≡ true → (a && not d) ≡ (if d then not c else b)
taken_out a b c true e h = ground arith
taken_out a b c false e h = ground arith

put_in : (a b c d : Bool) → a ≡ b → c ≡ false → (a || d) ≡ (if d then not c else b)
put_in a b c true e h = ground arith
put_in a b c false e h = ground arith

-- A switch of an id in a list of ids puts it in if it is not there and takes it out if it is, and
-- leaves every other id in or out.
pub listed-toggle_id :
    (s id : Text) (ids : List Text)
    → listed s (toggle_id id ids) ≡ (if text_eq id s then not (listed id ids) else listed s ids)
unfolding toggle_id
listed-toggle_id s id ids =
    let set = to_set [] ids in
    let here : listed id set ≡ listed id ids = listed-to_set id [] ids in
    let there : listed s set ≡ listed s ids = listed-to_set s [] ids in
    elim (Bool-cases (listed id set)) [
      | inl e ↦ rw e (
          listed-keep s id set
          ∙ taken_out (listed s set) (listed s ids) (listed id ids) (text_eq id s) there
              (sym here ∙ e))
      | inr e ↦ rw e (
          listed-snoc s id set
          ∙ put_in (listed s set) (listed s ids) (listed id ids) (text_eq id s) there
              (sym here ∙ e))
    ]
