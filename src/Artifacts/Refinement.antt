-- ===== src/Artifacts/Refinement.antt =====
-- src/agent/artifacts.ts: the projection is a table from identities to the merged events.
use jupyter_plugin_aitermina.Artifacts.{ArtifactIdentity, ArtifactEvent, ArtifactRecord}
use jupyter_plugin_aitermina.Base.{
  none, List, Option, if◌then◌else◌, ◌∷◌, ◌≡◌, true, arith, [], false, some, Bool-cases, subst, inl,
  sym, inr, ◌∙◌, Bool, text_eq_refl, text_eq, true-ne-false, refl, ap, ◌&&◌, text_eq_iff,
}
use jupyter_plugin_aitermina.Artifacts.Projection.{
  get_artifact, same_identity, set_artifact, delete_artifact, identity_of_event, identity_of_record,
  is_deleted, merge_artifact, artifact_record_from_event, apply_artifact, apply_artifacts,
}

-- What a projection promises: a record, or none, for each identity.
abbrev pub Table : Type 0
Table = ArtifactIdentity → Option ArtifactRecord

abbrev pub empty_table : Table
empty_table id = none

abbrev pub apply_to_table : ArtifactEvent → Table → Table
apply_to_table e table id =
    if same_identity (identity_of_event e) id
    then (if is_deleted e.artifact.phase
        then none
        else some (merge_artifact e (table (identity_of_event e))))
    else table id

abbrev pub apply_all_to_table : List ArtifactEvent → Table → Table
apply_all_to_table [] table = table
apply_all_to_table (e ∷ es) table = apply_all_to_table es (apply_to_table e table)

three : (a b c : Bool) → (a && (b && c)) ≡ true → (a ≡ true) × (b ≡ true) × (c ≡ true)
three true true true h = (refl, refl, refl)
three true true false h = absurd (true-ne-false (sym h))
three true false c h = absurd (true-ne-false (sym h))
three false b c h = absurd (true-ne-false (sym h))

same_identity_refl : (a : ArtifactIdentity) → same_identity a a ≡ true
unfolding same_identity
same_identity_refl a =
    rw (text_eq_refl a.session_id, text_eq_refl a.run_id, text_eq_refl a.artifact_id) refl

same_identity_sound : (a b : ArtifactIdentity) → same_identity a b ≡ true → a ≡ b
unfolding same_identity
same_identity_sound a b h =
    let (s, r, i) =
      three (text_eq a.session_id b.session_id) (text_eq a.run_id b.run_id)
        (text_eq a.artifact_id b.artifact_id) h in
    ap (λ x. record a { session_id = x }) ((text_eq_iff a.session_id b.session_id).0 s)
    ∙ ap (λ x. record b { run_id = x; artifact_id = a.artifact_id })
        ((text_eq_iff a.run_id b.run_id).0 r)
    ∙ ap (λ x. record b { artifact_id = x }) ((text_eq_iff a.artifact_id b.artifact_id).0 i)

not_both :
    (a b c : ArtifactIdentity)
    → same_identity a b ≡ false
    → same_identity a c ≡ true
    → same_identity b c ≡ false
not_both a b c e k = elim (Bool-cases (same_identity b c)) [
  | inr h ↦ h
  | inl h ↦
      let same : a ≡ b = same_identity_sound a c k ∙ sym (same_identity_sound b c h) in
      absurd
        (true-ne-false (sym (same_identity_refl b) ∙ ap (λ x. same_identity x b) (sym same) ∙ e))
]

differ_from :
    (a b c : ArtifactIdentity)
    → same_identity a b ≡ true
    → same_identity b c ≡ false
    → same_identity a c ≡ false
differ_from a b c e k = subst (λ x. same_identity x c ≡ false) (sym (same_identity_sound a b e)) k

get-set_artifact :
    (id : ArtifactIdentity) (r : ArtifactRecord) (rs : List ArtifactRecord)
    → get_artifact id (set_artifact r rs)
      ≡ (if same_identity (identity_of_record r) id then some r else get_artifact id rs)
unfolding get_artifact set_artifact
get-set_artifact id r [] = elim (Bool-cases (same_identity (identity_of_record r) id)) [
  | inl e ↦ rw e refl
  | inr e ↦ rw e refl
]
get-set_artifact id r (q ∷ qs) =
    elim (Bool-cases (same_identity (identity_of_record q) (identity_of_record r))) [
      | inl e ↦ rw e (elim (Bool-cases (same_identity (identity_of_record r) id)) [
        | inl k ↦ rw k refl
        | inr k ↦ rw (k, differ_from (identity_of_record q) (identity_of_record r) id e k) refl
      ])
      | inr e ↦ rw e (elim (Bool-cases (same_identity (identity_of_record q) id)) [
        | inl k ↦ rw (k, not_both (identity_of_record q) (identity_of_record r) id e k) refl
        | inr k ↦ rw k (get-set_artifact id r qs)
      ])
    ]

get-delete_artifact :
    (id key : ArtifactIdentity) (rs : List ArtifactRecord)
    → get_artifact id (delete_artifact key rs)
      ≡ (if same_identity key id then none else get_artifact id rs)
unfolding get_artifact delete_artifact
get-delete_artifact id key [] = ground arith
get-delete_artifact id key (q ∷ qs) = elim (Bool-cases (same_identity (identity_of_record q) key)) [
  | inl e ↦ rw e (
      get-delete_artifact id key qs ∙ elim (Bool-cases (same_identity key id)) [
        | inl k ↦ rw k refl
        | inr k ↦ rw (k, differ_from (identity_of_record q) key id e k) refl
      ])
  | inr e ↦ rw e (elim (Bool-cases (same_identity (identity_of_record q) id)) [
    | inl k ↦ rw (k, not_both (identity_of_record q) key id e k) refl
    | inr k ↦ rw k (get-delete_artifact id key qs)
  ])
]

merge-identity :
    (e : ArtifactEvent) (before : Option ArtifactRecord)
    → identity_of_record (merge_artifact e before) ≡ identity_of_event e
unfolding merge_artifact artifact_record_from_event
merge-identity e before = refl

module _ (e : ArtifactEvent) (rs : List ArtifactRecord) where
  apply_artifact-deletes :
      is_deleted e.artifact.phase ≡ true
      → (apply_artifact e rs).0 ≡ delete_artifact (identity_of_event e) rs
  unfolding apply_artifact
  apply_artifact-deletes h = rw h refl

  apply_artifact-sets :
      is_deleted e.artifact.phase ≡ false
      → (apply_artifact e rs).0
        ≡ set_artifact (merge_artifact e (get_artifact (identity_of_event e) rs)) rs
  unfolding apply_artifact
  apply_artifact-sets h = rw h refl

  get-apply_artifact :
      (id : ArtifactIdentity)
      → get_artifact id (apply_artifact e rs).0 ≡ apply_to_table e (λ k. get_artifact k rs) id
  get-apply_artifact id =
      let merged = merge_artifact e (get_artifact (identity_of_event e) rs) in
      elim (Bool-cases (is_deleted e.artifact.phase)) [
        | inl h ↦ rw (apply_artifact-deletes h, h) (get-delete_artifact id (identity_of_event e) rs)
        | inr h ↦
            rw (apply_artifact-sets h, h)
              (get-set_artifact id merged rs
                ∙ ap (λ k. if same_identity k id then some merged else get_artifact id rs)
                    (merge-identity e (get_artifact (identity_of_event e) rs)))
      ]

-- Tables that agree everywhere agree after an event, and after a sequence of events.
apply_all_to_table-agree :
    (es : List ArtifactEvent) (f g : Table)
    → ((k : ArtifactIdentity) → f k ≡ g k)
    → (id : ArtifactIdentity) → apply_all_to_table es f id ≡ apply_all_to_table es g id
apply_all_to_table-agree [] f g h id = h id
apply_all_to_table-agree (e ∷ es) f g h id =
    apply_all_to_table-agree es (apply_to_table e f) (apply_to_table e g)
      (λ k. rw (h k, h (identity_of_event e)) refl) id

-- After any sequence of events, from any records, the projection gives for each identity what the
-- abstract table gives, in which an event changes only the entry of its own session, run and
-- artifact: a deletion empties it, any other event merges into what it holds.
pub apply_artifacts-refines :
    (es : List ArtifactEvent) (rs : List ArtifactRecord) (id : ArtifactIdentity)
    → get_artifact id (apply_artifacts es rs) ≡ apply_all_to_table es (λ k. get_artifact k rs) id
unfolding apply_artifacts
apply_artifacts-refines [] rs id = refl
apply_artifacts-refines (e ∷ es) rs id =
    apply_artifacts-refines es (apply_artifact e rs).0 id
    ∙ apply_all_to_table-agree es (λ k. get_artifact k (apply_artifact e rs).0)
        (apply_to_table e (λ k. get_artifact k rs)) (get-apply_artifact e rs) id
