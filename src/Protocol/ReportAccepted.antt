-- ===== src/Protocol/ReportAccepted.antt =====
-- src/agent/protocol.ts: an accepted report is safe to show.
use jupyter_plugin_aitermina.Protocol.ReportParse.{
  read_derived_from, read_provenance_entry, read_provenance, provenance_of,
  read_compaction_snapshot, read_budget_snapshot, read_if, has_only_keys, compaction_keys,
  budget_snapshot_keys, optional_integer, read_computed_snapshot, require_non_negative_integer,
  configuration_states, configuration_compaction_states,
}
use jupyter_plugin_aitermina.Base.{
  Option, none, All, some, ◌≡◌, true, codes, is_some, Bool-cases, subst, inl, inr,
}
use jupyter_plugin_aitermina.Protocol.ReportDifferences.{
  read_nullable_snapshot, read_lifetime, read_configuration_report, parse_configuration_report,
  is_lifetime, required_bool,
}
use jupyter_plugin_aitermina.Json.{Value, Fields, bool, get, num, field, str, arr, obj, null, end}
use jupyter_plugin_aitermina.Protocol.DshReaders.{
  Reads, given, missing, Reads-bind, Reads-skip, Reads-of_HoldsIf, Reads-guard,
}
use jupyter_plugin_aitermina.Protocol.Report.{ConfigurationReport}
use jupyter_plugin_aitermina.Protocol.ReportSound.{
  ShortIf, IsSafeCompaction, IsSafeSnapshot, IsSafeReport, read_budget_field_names-Short, if-Reads,
  IsSafeProvenance, read_differences-Safe, HasRatios, HasSafeParts,
}
use jupyter_plugin_aitermina.Protocol.DshSound.{Countable, optional_number-Countable}
use jupyter_plugin_aitermina.Protocol.DshParse.{optional_bool, require_enum}

read_derived_from-Short : (v : Option Value) → Reads ShortIf (read_derived_from v)
unfolding read_derived_from
read_derived_from-Short none = given tt
read_derived_from-Short (some v) = Reads-bind _ (read_budget_field_names-Short v) λ names h. given h

read_provenance_entry-Short :
    (v : Value) → Reads (λ e. ShortIf e.derived_from) (read_provenance_entry v)
unfolding read_provenance_entry
read_provenance_entry-Short null = missing
read_provenance_entry-Short (bool b) = missing
read_provenance_entry-Short (num n) = missing
read_provenance_entry-Short (str s) = missing
read_provenance_entry-Short (arr items) = missing
read_provenance_entry-Short (obj entry) = Reads-skip _ _ λ source.
    Reads-bind _ (read_derived_from-Short (get (codes "derivedFrom") entry)) λ names h. given h

read_provenance-Short :
    (fs : Fields) → Reads (All λ e. ShortIf e.1.derived_from) (read_provenance fs)
unfolding read_provenance
read_provenance-Short end = given tt
read_provenance-Short (field k v fs) =
    if-Reads _ (is_some (get k fs)) (read_provenance-Short fs) λ last. Reads-skip _ _ λ name.
      Reads-bind _ (read_provenance_entry-Short v)
        λ entry h. Reads-bind _ (read_provenance-Short fs) λ rest hs. given (h, hs)

provenance_of-Short : (v : Value) → Reads (All λ e. ShortIf e.1.derived_from) (provenance_of v)
unfolding provenance_of
provenance_of-Short null = missing
provenance_of-Short (bool b) = missing
provenance_of-Short (num n) = missing
provenance_of-Short (str s) = missing
provenance_of-Short (arr items) = missing
provenance_of-Short (obj entries) = read_provenance-Short entries

read_compaction_snapshot-Safe : (v : Value) → Reads HasRatios (read_compaction_snapshot v)
unfolding read_compaction_snapshot
read_compaction_snapshot-Safe null = missing
read_compaction_snapshot-Safe (bool b) = missing
read_compaction_snapshot-Safe (num n) = missing
read_compaction_snapshot-Safe (str s) = missing
read_compaction_snapshot-Safe (arr items) = missing
read_compaction_snapshot-Safe (obj entry) =
    Reads-guard (has_only_keys compaction_keys entry) _ λ known.
      Reads-skip (optional_bool (codes "enabled") entry) _ λ enabled.
        Reads-bind _
          (Reads-of_HoldsIf Countable _ (optional_number-Countable (codes "thresholdRatio") entry))
          λ ratio h. Reads-skip (optional_integer (codes "headroom") entry) _ λ room.
            Reads-bind _
              (Reads-of_HoldsIf Countable _ (optional_number-Countable (codes "retainRatio") entry))
              λ kept k.
                Reads-skip (optional_integer (codes "summaryMaxTokens") entry) _
                  λ tokens. given (record { at_threshold = h; at_retain = k })

read_if-Reads :
    {A : Type 0} {P : A → Type 0} {Q : Option A → Type 0} (read : Value → Option A)
    (v : Option Value)
    → Q none
    → ((a : A) → P a → Q (some a))
    → ((w : Value) → Reads P (read w))
    → Reads Q (read_if read v)
read_if-Reads read none q f h = given q
read_if-Reads read (some w) q f h = Reads-bind _ (h w) λ a p. given (f a p)

read_budget_snapshot-Safe : (v : Value) → Reads HasSafeParts (read_budget_snapshot v)
unfolding read_budget_snapshot
read_budget_snapshot-Safe null = missing
read_budget_snapshot-Safe (bool b) = missing
read_budget_snapshot-Safe (num n) = missing
read_budget_snapshot-Safe (str s) = missing
read_budget_snapshot-Safe (arr items) = missing
read_budget_snapshot-Safe (obj entry) =
    Reads-guard (has_only_keys budget_snapshot_keys entry) _ λ known.
      Reads-skip (optional_integer (codes "contextWindow") entry) _ λ window.
        Reads-skip (optional_integer (codes "maxOutputTokens") entry) _ λ tokens.
          Reads-bind {P = IsSafeCompaction} _
            (read_if-Reads read_compaction_snapshot (get (codes "compaction") entry) tt (λ a p. p)
              read_compaction_snapshot-Safe)
            λ compaction h.
              Reads-skip (read_if read_computed_snapshot (get (codes "computed") entry)) _
                λ computed.
                  Reads-bind {P = IsSafeProvenance} _
                    (read_if-Reads provenance_of (get (codes "provenance") entry) tt (λ a p. p)
                      provenance_of-Short)
                    λ provenance k. given (record { of_compaction = h; of_provenance = k })

read_nullable_snapshot-Safe : (v : Value) → Reads IsSafeSnapshot (read_nullable_snapshot v)
unfolding read_nullable_snapshot
read_nullable_snapshot-Safe null = given tt
read_nullable_snapshot-Safe (bool b) = missing
read_nullable_snapshot-Safe (num n) = missing
read_nullable_snapshot-Safe (str s) = missing
read_nullable_snapshot-Safe (arr items) = missing
read_nullable_snapshot-Safe (obj entry) =
    Reads-bind _ (read_budget_snapshot-Safe (obj entry)) λ s h. given h

read_lifetime-Safe : (v : Option Value) → Reads (λ s. is_lifetime s ≡ true) (read_lifetime v)
unfolding read_lifetime
read_lifetime-Safe none = missing
read_lifetime-Safe (some null) = missing
read_lifetime-Safe (some (bool b)) = missing
read_lifetime-Safe (some (num n)) = missing
read_lifetime-Safe (some (arr items)) = missing
read_lifetime-Safe (some (obj entry)) = missing
read_lifetime-Safe (some (str s)) = elim (Bool-cases (is_lifetime s)) [
  | inl e ↦ rw e (given e)
  | inr e ↦ rw e missing
]

read_configuration_report-Safe : (raw : Fields) → Reads IsSafeReport (read_configuration_report raw)
unfolding read_configuration_report
read_configuration_report-Safe raw =
    Reads-bind _ (read_lifetime-Safe (get (codes "runtimeLifetime") raw)) λ lifetime hl.
      Reads-skip (get (codes "active") raw) _ λ before.
        Reads-skip (get (codes "desired") raw) _ λ after.
          Reads-skip (required_bool (get (codes "preflightApplied") raw)) _ λ applied.
            Reads-skip (require_non_negative_integer (codes "generation") raw) _ λ generation.
              Reads-skip (require_enum configuration_states (codes "state") raw) _ λ state.
                Reads-bind _ (read_nullable_snapshot-Safe before) λ active ha.
                  Reads-bind _ (read_nullable_snapshot-Safe after) λ desired hd.
                    Reads-bind _ (read_differences-Safe (get (codes "differences") raw)) λ ds h.
                      Reads-skip
                        (require_enum configuration_compaction_states (codes "compaction") raw) _
                        λ compaction. given (record {
                          lifetime = hl;
                          few = h.0;
                          differences = h.1;
                          active = ha;
                          desired = hd;
                        })

-- A configuration report that is accepted is safe to show, whatever the payload holds: its lifetime is
-- an identifier, at most 256 differences have paths of known keys, and every value of a difference has
-- known keys, known strings, countable numbers and at most six levels of objects; so have the snapshots
-- countable ratios and lists of at most 32 field names.
pub parse_configuration_report-IsSafe :
    (raw : Value) (r : ConfigurationReport)
    → parse_configuration_report raw ≡ some r
    → IsSafeReport r
unfolding parse_configuration_report
parse_configuration_report-IsSafe null r e = cc
parse_configuration_report-IsSafe (bool b) r e = cc
parse_configuration_report-IsSafe (num n) r e = cc
parse_configuration_report-IsSafe (str s) r e = cc
parse_configuration_report-IsSafe (arr items) r e = cc
parse_configuration_report-IsSafe (obj raw) r e =
    accepted (subst (Reads IsSafeReport) e (read_configuration_report-Safe raw))
  where
    accepted : Reads IsSafeReport (some r) → IsSafeReport r
    accepted (given h) = h
