-- ===== src/Protocol/ReportSound.antt =====
-- src/agent/protocol.ts: what is known of a configuration report that is accepted.
use jupyter_plugin_aitermina.Base.{
  ℕ, Text, Option, Bool, List, leb, length, some, ◌≡◌, if◌then◌else◌, true, false, not, ◌≤◌, none,
  All, arith, listed, refl, Bool-cases, ◌||◌, ap, inl, suc, is_some, inr, zero, ◌==◌, ◌∙◌, sym,
  codes,
}
use jupyter_plugin_aitermina.Protocol.Report.{
  ConfigurationReport, DifferenceValue, ConfigurationDifference, BudgetCompactionSnapshot,
  BudgetSnapshot, DifferenceFields, BudgetFieldName, bool_value, BudgetProvenanceEntry, one_field,
  number_value, text_value, names_value, no_fields, nested_value, no_value,
}
use jupyter_plugin_aitermina.Protocol.ReportParse.{
  read_names, read_budget_field_names, items_length, max_derived_from, max_difference_depth,
  max_differences, configuration_keys, count_keys,
}
use jupyter_plugin_aitermina.Protocol.ReportDifferences.{
  read_difference_value, is_lifetime, is_configuration_path, read_entries, is_known_text,
  read_difference, read_difference_entries, read_differences,
}
use jupyter_plugin_aitermina.Protocol.DshReaders.{
  Reads, given, missing, Reads-skip, Reads-bind, Reads-guard,
}
use jupyter_plugin_aitermina.Json.{
  Value, Number, Items, arr, Fields, cons, bool, is_finite, str, num, is_negative, obj, field, nil,
  null, get, end,
}
use jupyter_plugin_aitermina.Protocol.DshSound.{Countable}
use jupyter_plugin_aitermina.Protocol.DshParse.{◌>>=◌}

abbrev pub AllFields : (Text → DifferenceValue → Type 0) → DifferenceFields → Type 0
AllFields P no_fields = Unit
AllFields P (one_field k v fs) = P k v × AllFields P fs

-- A value with at most so many levels of objects, all of whose keys and strings are known ones.
abbrev pub IsSafe : ℕ → DifferenceValue → Type 0
IsSafe levels no_value = Unit
IsSafe levels (bool_value b) = Unit
IsSafe levels (number_value n) = (is_finite n ≡ true) × (is_negative n ≡ false)
IsSafe levels (text_value s) = is_known_text s ≡ true
IsSafe levels (names_value names) = length names ≤ max_derived_from
IsSafe zero (nested_value inner) = true ≡ false
IsSafe (suc levels) (nested_value inner) =
    AllFields (λ k v. (listed k configuration_keys ≡ true) × IsSafe levels v) inner

abbrev pub IsSafeAt : Text → ConfigurationDifference → Type 0
IsSafeAt path d =
    (is_configuration_path path ≡ true)
    × IsSafe max_difference_depth d.active
    × IsSafe max_difference_depth d.desired

abbrev pub IsSafeDifference : Text × ConfigurationDifference → Type 0
IsSafeDifference (path, d) = IsSafeAt path d

abbrev pub ShortIf : Option (List BudgetFieldName) → Type 0
ShortIf none = Unit
ShortIf (some names) = length names ≤ max_derived_from

abbrev pub IsSafeProvenance : Option (List (BudgetFieldName × BudgetProvenanceEntry)) → Type 0
IsSafeProvenance none = Unit
IsSafeProvenance (some entries) = All (λ e. ShortIf e.1.derived_from) entries

pub record HasRatios (c : BudgetCompactionSnapshot) : Type 0 where
  pub at_threshold : Countable c.threshold_ratio
  pub at_retain : Countable c.retain_ratio

abbrev pub IsSafeCompaction : Option BudgetCompactionSnapshot → Type 0
IsSafeCompaction none = Unit
IsSafeCompaction (some c) = HasRatios c

pub record HasSafeParts (s : BudgetSnapshot) : Type 0 where
  pub of_compaction : IsSafeCompaction s.compaction
  pub of_provenance : IsSafeProvenance s.provenance

abbrev pub IsSafeSnapshot : Option BudgetSnapshot → Type 0
IsSafeSnapshot none = Unit
IsSafeSnapshot (some s) = HasSafeParts s

pub record IsSafeReport (r : ConfigurationReport) : Type 0 where
  pub lifetime : is_lifetime r.runtime_lifetime ≡ true
  pub few : length r.differences ≤ max_differences
  pub differences : All IsSafeDifference r.differences
  pub active : IsSafeSnapshot r.active
  pub desired : IsSafeSnapshot r.desired

pub if-Reads :
    {A : Type 0} (P : A → Type 0) (b : Bool) {x y : Option A}
    → Reads P x
    → (b ≡ false → Reads P y)
    → Reads P (if b then x else y)
if-Reads P true h k = h
if-Reads P false h k = k refl

Reads-weaken :
    {A : Type 0} {P Q : A → Type 0} {m : Option A} → Reads P m → ((a : A) → P a → Q a) → Reads Q m
Reads-weaken missing f = missing
Reads-weaken (given {a} h) f = given (f a h)

at_most_32 : (n : ℕ) {m : ℕ} → leb n max_derived_from ≡ true → m ≡ n → m ≤ max_derived_from
at_most_32 n h e = ground arith

read_names-length :
    (items : Items) → Reads (λ names. length names ≡ items_length items) (read_names items)
unfolding read_names items_length
read_names-length nil = given refl
read_names-length (cons (str s) items) =
    Reads-skip _ _ λ name. Reads-bind _ (read_names-length items) λ rest h. given (ap suc h)
read_names-length (cons null items) = missing
read_names-length (cons (bool b) items) = missing
read_names-length (cons (num n) items) = missing
read_names-length (cons (arr xs) items) = missing
read_names-length (cons (obj fs) items) = missing

pub read_budget_field_names-Short :
    (v : Value) → Reads (λ names. length names ≤ max_derived_from) (read_budget_field_names v)
unfolding read_budget_field_names
read_budget_field_names-Short null = missing
read_budget_field_names-Short (bool b) = missing
read_budget_field_names-Short (num n) = missing
read_budget_field_names-Short (str s) = missing
read_budget_field_names-Short (obj fs) = missing
read_budget_field_names-Short (arr items) =
    Reads-guard (leb (items_length items) max_derived_from) _ λ short.
      Reads-weaken (read_names-length items) λ names e. at_most_32 (items_length items) short e

module _ (levels : ℕ) (read : Value → Option DifferenceValue)
    (sound : (v : Value) → Reads (IsSafe levels) (read v)) where
  read_entries-Safe :
      (fs : Fields)
      → Reads
          (AllFields λ k v. (listed k configuration_keys ≡ true) × IsSafe levels v)
          (read_entries read fs)
  unfolding read_entries
  read_entries-Safe end = given tt
  read_entries-Safe (field k v fs) = if-Reads _ (is_some (get k fs)) (read_entries-Safe fs) λ last.
      Reads-guard (listed k configuration_keys) _ λ known.
        Reads-bind _ (sound v)
          λ entry h. Reads-bind _ (read_entries-Safe fs) λ rest hs. given ((known, h), hs)

countable :
    (levels : ℕ) (n : Number)
    → Reads
        (IsSafe levels)
        (if not (is_finite n) || is_negative n then none else some (number_value n))
countable levels n = elim (Bool-cases (is_finite n)) [
  | inr e ↦ rw e missing
  | inl e ↦
      rw e
        (elim (Bool-cases (is_negative n)) [ inl k ↦ rw k missing | inr k ↦ rw k (given (e, k)) ])
]

known_text :
    (levels : ℕ) (s : Text)
    → Reads (IsSafe levels) (if is_known_text s then some (text_value s) else none)
known_text levels s = elim (Bool-cases (is_known_text s)) [
  | inl e ↦ rw e (given e)
  | inr e ↦ rw e missing
]

names_of :
    (levels : ℕ) (items : Items)
    → Reads
        (IsSafe levels)
        (read_budget_field_names (arr items) >>= λ names. some (names_value names))
names_of levels items = Reads-bind _ (read_budget_field_names-Short (arr items)) λ names h. given h

read_difference_value-Safe :
    (levels : ℕ) (v : Value) → Reads (IsSafe levels) (read_difference_value levels v)
unfolding read_difference_value
read_difference_value-Safe levels null = given tt
read_difference_value-Safe levels (bool b) = given tt
read_difference_value-Safe levels (num n) = countable levels n
read_difference_value-Safe levels (str s) = known_text levels s
read_difference_value-Safe levels (arr items) = names_of levels items
read_difference_value-Safe zero (obj fields) = missing
read_difference_value-Safe (suc levels) (obj fields) =
    Reads-bind _
      (read_entries-Safe levels (read_difference_value levels) (read_difference_value-Safe levels)
        fields)
      λ fs h. given h

read_difference-Safe :
    (path : Text) (v : Value)
    → is_configuration_path path ≡ true
    → Reads (IsSafeAt path) (read_difference v)
unfolding read_difference
read_difference-Safe path null known = missing
read_difference-Safe path (bool b) known = missing
read_difference-Safe path (num n) known = missing
read_difference-Safe path (str s) known = missing
read_difference-Safe path (arr items) known = missing
read_difference-Safe path (obj entry) known = Reads-skip (get (codes "active") entry) _ λ before.
    Reads-skip (get (codes "desired") entry) _ λ after. Reads-guard (count_keys entry == 2) _ λ two.
      Reads-bind _ (read_difference_value-Safe max_difference_depth before) λ active ha.
        Reads-bind _ (read_difference_value-Safe max_difference_depth after)
          λ desired hd. given (known, ha, hd)

-- As many differences as keys.
abbrev AreSafe : Fields → List (Text × ConfigurationDifference) → Type 0
AreSafe fs ds = (length ds ≡ count_keys fs) × All IsSafeDifference ds

count_repeated :
    (k : Text) (v : Value) (fs : Fields)
    → is_some (get k fs) ≡ true
    → count_keys (field k v fs) ≡ count_keys fs
unfolding count_keys
count_repeated k v fs e = rw e refl

count_last :
    (k : Text) (v : Value) (fs : Fields)
    → is_some (get k fs) ≡ false
    → count_keys (field k v fs) ≡ suc (count_keys fs)
unfolding count_keys
count_last k v fs e = rw e refl

read_difference_entries-Safe : (fs : Fields) → Reads (AreSafe fs) (read_difference_entries fs)
unfolding read_difference_entries
read_difference_entries-Safe end = given (unfold count_keys in refl, tt)
read_difference_entries-Safe (field path v fs) = elim (Bool-cases (is_some (get path fs))) [
  | inl e ↦ rw e (
      Reads-weaken (read_difference_entries-Safe fs)
        λ ds h. (h.0 ∙ sym (count_repeated path v fs e), h.1))
  | inr e ↦ rw e (
      Reads-guard (is_configuration_path path) _ λ known.
        Reads-bind _ (read_difference-Safe path v known) λ d h.
          Reads-bind _ (read_difference_entries-Safe fs)
            λ rest hs. given (ap suc hs.0 ∙ sym (count_last path v fs e), (h, hs.1)))
]

at_most_256 : (n : ℕ) {m : ℕ} → leb n max_differences ≡ true → m ≡ n → m ≤ max_differences
at_most_256 n h e = ground arith

pub read_differences-Safe :
    (v : Option Value)
    → Reads (λ ds. (length ds ≤ max_differences) × All IsSafeDifference ds) (read_differences v)
unfolding read_differences
read_differences-Safe none = missing
read_differences-Safe (some null) = missing
read_differences-Safe (some (bool b)) = missing
read_differences-Safe (some (num n)) = missing
read_differences-Safe (some (str s)) = missing
read_differences-Safe (some (arr items)) = missing
read_differences-Safe (some (obj entries)) =
    Reads-guard (leb (count_keys entries) max_differences) _ λ few.
      Reads-weaken (read_difference_entries-Safe entries)
        λ ds h. (at_most_256 (count_keys entries) few h.0, h.1)
