-- ===== src/Protocol/DshReaders.antt =====
-- src/agent/protocol.ts: the readers of the kinds of product events.
use jupyter_plugin_aitermina.Base.{
  ◌∷◌, [], Text, Option, some, none, ◌≡◌, true, false, codes, refl, Bool, Option-cases, inl, inr,
}
use jupyter_plugin_aitermina.Protocol.DshParse.{
  require_string, optional_string, optional_number, optional_options, ◌>>=◌, guard,
  parse_capability, parse_capabilities_from, parse_capabilities, Enum, capability_names,
}
use jupyter_plugin_aitermina.Json.{Fields, get, Value, obj, bool, num, str, arr, null}
use jupyter_plugin_aitermina.Protocol.DshEvents.{
  has_locator, run_scope, session_scope, parse_text_snapshot, parse_text_delta, parse_activity,
  parse_artifact, parse_requested, parse_resolved, parse_cancelled, parse_run_started,
  parse_run_finished, parse_connection, parse_session, parse_capabilities_event,
}
use jupyter_plugin_aitermina.Protocol.DshSound.{
  HoldsIf, Full, FullIf, Countable, ChoicesIf, IsScope, IsSessionScope, IsSound,
  require_string-Full, optional_string-Full, optional_number-Countable, optional_options-Choices,
  run_scope-IsScope, session_scope-IsSessionScope, HaveFullReasons,
}
use jupyter_plugin_aitermina.Protocol.Dsh.{Capability, CapabilityName}

-- The same as a family, from which its predicate can be read off.
pub data Reads {A : Type 0} (P : A → Type 0) : Option A → Type 0 where
  missing : Reads P none
  given : {a : A} → P a → Reads P (some a)

pub Reads-of_HoldsIf : {A : Type 0} (P : A → Type 0) (m : Option A) → HoldsIf P m → Reads P m
Reads-of_HoldsIf P none h = missing
Reads-of_HoldsIf P (some a) h = given h

HoldsIf-of_Reads : {A : Type 0} {P : A → Type 0} {m : Option A} → Reads P m → HoldsIf P m
HoldsIf-of_Reads missing = tt
HoldsIf-of_Reads (given h) = h

-- A step of a reader: what holds of its value is known to the rest.
pub Reads-bind :
    {A B : Type 0} {P : A → Type 0} {Q : B → Type 0} {m : Option A} (k : A → Option B)
    → Reads P m
    → ((a : A) → P a → Reads Q (k a))
    → Reads Q (m >>= k)
Reads-bind k missing f = missing
Reads-bind k (given {a} h) f = f a h

-- A step of whose value nothing is claimed.
pub Reads-skip :
    {A B : Type 0} {Q : B → Type 0} (m : Option A) (k : A → Option B)
    → ((a : A) → Reads Q (k a))
    → Reads Q (m >>= k)
Reads-skip none k f = missing
Reads-skip (some a) k f = f a

pub Reads-guard :
    {B : Type 0} {Q : B → Type 0} (b : Bool) (k : Unit {0} → Option B)
    → (b ≡ true → Reads Q (k tt))
    → Reads Q (guard b >>= k)
Reads-guard true k f = f refl
Reads-guard false k f = missing

module _ (p : Fields) where
  required : (key : Text) → Reads Full (require_string key p)
  required key = Reads-of_HoldsIf Full _ (require_string-Full key p)

  optional : (key : Text) → Reads FullIf (optional_string key p)
  optional key = Reads-of_HoldsIf FullIf _ (optional_string-Full key p)

  duration : (key : Text) → Reads Countable (optional_number key p)
  duration key = Reads-of_HoldsIf Countable _ (optional_number-Countable key p)

  choices : Reads ChoicesIf (optional_options p)
  choices = Reads-of_HoldsIf ChoicesIf _ (optional_options-Choices p)

  of_run : Reads IsScope (run_scope p)
  of_run = Reads-of_HoldsIf IsScope _ (run_scope-IsScope p)

  of_session : Reads IsSessionScope (session_scope p)
  of_session = Reads-of_HoldsIf IsSessionScope _ (session_scope-IsSessionScope p)

pub text_snapshot-Sound : (p : Fields) → Reads IsSound (parse_text_snapshot p)
unfolding parse_text_snapshot
text_snapshot-Sound p = Reads-bind _ (of_session p) λ s hs.
    Reads-bind _ (optional p (codes "runId")) λ r hr.
      Reads-bind _ (required p (codes "messageId"))
        λ m hm. Reads-bind _ (required p (codes "text")) λ t ht. given (hs, hr, hm, ht)

pub text_delta-Sound : (p : Fields) → Reads IsSound (parse_text_delta p)
unfolding parse_text_delta
text_delta-Sound p = Reads-bind _ (of_run p) λ s hs.
    Reads-bind _ (required p (codes "messageId"))
      λ m hm. Reads-bind _ (required p (codes "delta")) λ d hd. given (hs, hm, hd)

pub activity-Sound : (p : Fields) → Reads IsSound (parse_activity p)
unfolding parse_activity
activity-Sound p = Reads-bind _ (of_run p) λ s hs.
    Reads-bind _ (required p (codes "activityId")) λ i hi. Reads-skip _ _ λ phase.
      Reads-bind _ (optional p (codes "toolCallId")) λ c hc.
        Reads-bind _ (optional p (codes "label")) λ l hl.
          Reads-bind _ (optional p (codes "toolName")) λ t ht. Reads-skip _ _ λ status.
            Reads-bind _ (optional p (codes "outputSummary")) λ o ho.
              Reads-bind _ (duration p (codes "durationMs"))
                λ n hn. given (hs, hi, hc, hl, ht, ho, hn)

pub artifact-Sound : (p : Fields) → Reads IsSound (parse_artifact p)
unfolding parse_artifact
artifact-Sound p = Reads-skip _ _ λ phase. Reads-bind _ (optional p (codes "uri")) λ u hu.
    Reads-bind _ (optional p (codes "unavailableReason")) λ r hr.
      Reads-guard (has_locator phase u r) _ λ located. Reads-bind _ (of_run p) λ s hs.
        Reads-bind _ (required p (codes "artifactId")) λ i hi.
          Reads-bind _ (optional p (codes "name")) λ n hn.
            Reads-bind _ (optional p (codes "mediaType"))
              λ m hm. Reads-skip _ _ λ source. given (hs, hi, hn, hu, hm, hr, located)

pub requested-Sound : (p : Fields) → Reads IsSound (parse_requested p)
unfolding parse_requested
requested-Sound p = Reads-bind _ (of_run p) λ s hs.
    Reads-bind _ (required p (codes "requestId")) λ i hi. Reads-skip _ _ λ kind.
      Reads-bind _ (optional p (codes "toolCallId")) λ c hc.
        Reads-bind _ (required p (codes "prompt")) λ q hq. Reads-bind _ (choices p) λ o ho.
          Reads-skip _ _ λ free. Reads-bind _ (optional p (codes "action")) λ a ha.
            Reads-bind _ (optional p (codes "target")) λ t ht. given (hs, hi, hc, hq, ho, ha, ht)

pub resolved-Sound : (p : Fields) → Reads IsSound (parse_resolved p)
unfolding parse_resolved
resolved-Sound p = Reads-bind _ (of_run p) λ s hs.
    Reads-bind _ (required p (codes "requestId"))
      λ i hi. Reads-skip _ _ λ resolution. given (hs, hi)

pub cancelled-Sound : (p : Fields) → Reads IsSound (parse_cancelled p)
unfolding parse_cancelled
cancelled-Sound p =
    Reads-bind _ (of_run p)
      λ s hs. Reads-bind _ (required p (codes "requestId")) λ i hi. given (hs, hi)

pub run_started-Sound : (p : Fields) → Reads IsSound (parse_run_started p)
unfolding parse_run_started
run_started-Sound p = Reads-bind _ (of_run p) λ s hs. given hs

pub run_finished-Sound : (p : Fields) → Reads IsSound (parse_run_finished p)
unfolding parse_run_finished
run_finished-Sound p = Reads-bind _ (of_run p) λ s hs. Reads-skip _ _ λ status. given hs

pub connection-Sound : (p : Fields) → Reads IsSound (parse_connection p)
unfolding parse_connection
connection-Sound p =
    Reads-bind _ (required p (codes "runtimeId")) λ r hr. Reads-skip _ _ λ phase. given hr

pub session-Sound : (p : Fields) → Reads IsSound (parse_session p)
unfolding parse_session
session-Sound p = Reads-bind _ (of_session p) λ s hs. Reads-skip _ _ λ phase. given hs

parse_capability-full :
    (v : Value) → Reads (λ (c : Capability). FullIf c.reason) (parse_capability v)
unfolding parse_capability
parse_capability-full (obj entry) =
    Reads-skip _ _ λ status. Reads-bind _ (optional entry (codes "reason")) λ reason h. given h
parse_capability-full null = missing
parse_capability-full (bool b) = missing
parse_capability-full (num n) = missing
parse_capability-full (str s) = missing
parse_capability-full (arr a) = missing

parse_capabilities_from-full :
    (names : Enum CapabilityName) (source : Fields)
    → Reads HaveFullReasons (parse_capabilities_from names source)
unfolding parse_capabilities_from
parse_capabilities_from-full [] source = given tt
parse_capabilities_from-full ((key, name) ∷ names) source = elim (Option-cases (get key source)) [
  | inl e ↦ rw (e, parse_capabilities_from) (parse_capabilities_from-full names source)
  | inr (v, e) ↦
      rw (e, parse_capabilities_from)
        (Reads-bind _ (parse_capability-full v) λ c hc.
          Reads-bind _ (parse_capabilities_from-full names source) λ rest hr. given (hc, hr))
]

parse_capabilities-full : (v : Option Value) → Reads HaveFullReasons (parse_capabilities v)
unfolding parse_capabilities
parse_capabilities-full (some (obj source)) = parse_capabilities_from-full capability_names source
parse_capabilities-full (some null) = missing
parse_capabilities-full (some (bool b)) = missing
parse_capabilities-full (some (num n)) = missing
parse_capabilities-full (some (str s)) = missing
parse_capabilities-full (some (arr a)) = missing
parse_capabilities-full none = missing

pub capabilities-Sound : (p : Fields) → Reads IsSound (parse_capabilities_event p)
unfolding parse_capabilities_event
capabilities-Sound p = Reads-bind _ (required p (codes "runtimeId")) λ r hr.
    Reads-bind _ (parse_capabilities-full (get (codes "capabilities") p))
      λ manifest hm. given (hr, hm)
