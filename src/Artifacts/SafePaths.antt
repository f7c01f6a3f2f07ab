-- ===== src/Artifacts/SafePaths.antt =====
-- src/agent/artifacts.ts: what is known of a path that is handed to the host.
use jupyter_plugin_aitermina.Base.{
  ℕ, Text, Bool, List, Option, All, any, Option-cases, not, some, ◌≢◌, ◌||◌, [], split, text_eq,
  inr, ◌≡◌, if◌then◌else◌, none, false, codes, true, is_some, inl, true-ne-false, length, ◌==◌, ◌∷◌,
  refl, arith, sym, subst, ap, ◌∙◌, text_eq_iff,
}
use jupyter_plugin_aitermina.Artifacts.Paths.{
  first_rejection, decoded_tests, WorkspacePathCheck, check_decoded, check_raw,
  check_workspace_relative_path, Test, rejected_path, raw_tests, accepted_path,
  WorkspacePathRejection,
}
use jupyter_plugin_aitermina.Artifacts.Opening.{
  ArtifactOpenBlockCode, open_path, artifact_open_decision, cannot_open, ArtifactOpenDecision,
  can_open, is_available, open_checked, artifact_status,
}
use jupyter_plugin_aitermina.Artifacts.{ArtifactRecord}
use jupyter_plugin_aitermina.Document.References.{is_control, has_control_character}
use jupyter_plugin_aitermina.Protocol.Dsh.{
  CapabilityStatus, CapabilityManifest, available, not_available, unverified,
}
use jupyter_plugin_aitermina.Artifacts.Projection.{is_deleted}
use jupyter_plugin_aitermina.ToolPresenter.Formats.{starts_with}
use jupyter_plugin_aitermina.Artifacts.Decoding.{decode_uri_component}

-- A code unit that a path may have.
pub record IsPlain (c : ℕ) : Type 0 where
  pub no_control : is_control c ≡ false
  pub no_backslash : (c == 92) ≡ false
  pub no_colon : (c == 58) ≡ false
  pub no_query : (c == 63) ≡ false
  pub no_fragment : (c == 35) ≡ false
  pub no_percent : (c == 37) ≡ false

-- A segment that does not leave its directory.
abbrev pub IsInside : Text → Type 0
IsInside segment = (segment ≢ []) × (segment ≢ codes "..")

pub record IsSafePath (path : Text) : Type 0 where
  pub units : All IsPlain path
  pub segments : All IsInside (split 47 path)
  pub not_home : starts_with (codes "~") path ≡ false

first_rejection-none :
    (tests : List Test) → first_rejection tests ≡ none → All (λ t. t.0 ≡ false) tests
unfolding first_rejection
first_rejection-none [] e = tt
first_rejection-none ((true, reason) ∷ tests) e = absurd (some-ne-none e)
  where
    some-ne-none : {r : WorkspacePathRejection} → some r ≢ none
    some-ne-none h = cc
first_rejection-none ((false, reason) ∷ tests) e = (refl, first_rejection-none tests e)

any-false : {A : Type 0} (p : A → Bool) (xs : List A) → any p xs ≡ false → All (λ x. p x ≡ false) xs
any-false p [] e = tt
any-false p (x ∷ xs) e = ground (arith, any-false p xs)

neither : (a b : Bool) → (a || b) ≡ false → (a ≡ false) × (b ≡ false)
neither true b e = absurd (true-ne-false e)
neither false b e = (refl, e)

units-IsPlain :
    (s : Text)
    → All (λ c. is_control c ≡ false) s
    → All (λ c. (c == 92) ≡ false) s
    → All (λ c. (c == 58) ≡ false) s
    → All (λ c. (c == 63) ≡ false) s
    → All (λ c. (c == 35) ≡ false) s
    → All (λ c. (c == 37) ≡ false) s
    → All IsPlain s
units-IsPlain [] a b c d e f = tt
units-IsPlain (x ∷ s) (a, as') (b, bs) (c, cs) (d, ds) (e, es) (f, fs) = (
  record {
    no_control = a;
    no_backslash = b;
    no_colon = c;
    no_query = d;
    no_fragment = e;
    no_percent = f;
  },
  units-IsPlain s as' bs cs ds es fs,
)

inside :
    (segments : List Text)
    → All (λ s. text_eq s (codes "..") ≡ false) segments
    → All (λ s. (length s == 0) ≡ false) segments
    → All IsInside segments
inside [] h k = tt
inside (s ∷ segments) (h, hs) (k, ks) = (
  (
    (λ e. true-ne-false (sym (ap (λ t. length t == 0) e) ∙ k)),
    (λ e. true-ne-false (sym ((text_eq_iff s (codes "..")).1 e) ∙ h)),
  ),
  inside segments hs ks,
)

decoded_tests-IsSafePath :
    (path : Text) → All (λ t. t.0 ≡ false) (decoded_tests path) → IsSafePath path
unfolding decoded_tests has_control_character
decoded_tests-IsSafePath path
      (
        percent,
        (nul, (control, (back, (double, (root, (drive, (colon, (query, (up, (empty, h)))))))))),
      ) =
    record {
      units =
          units-IsPlain path (any-false is_control path control)
            (any-false (λ d. d == 92) path back)
            (any-false (λ d. d == 58) path (neither _ _ colon).1)
            (any-false (λ d. d == 63) path (neither _ _ query).0)
            (any-false (λ d. d == 35) path (neither _ _ query).1)
            (any-false (λ d. d == 37) path percent);
      segments =
          inside (split 47 path) (any-false (λ s. text_eq s (codes "..")) (split 47 path) up)
            (any-false (λ s. length s == 0) (split 47 path) empty);
      not_home = (neither _ _ root).1;
    }

-- What a locator says once it is decoded.
abbrev pub decode_given : Option Text → Option Text
decode_given none = none
decode_given (some uri) = decode_uri_component uri

-- A path that the check lets through is the decoded locator, and is safe.
abbrev pub SafeIfAccepted : Option Text → WorkspacePathCheck → Type 0
SafeIfAccepted uri (rejected_path reason) = Unit
SafeIfAccepted uri (accepted_path path) = IsSafePath path × (decode_given uri ≡ some path)

check_decoded-safe :
    (uri : Option Text) (s : Text)
    → decode_given uri ≡ some s
    → SafeIfAccepted uri (check_decoded s)
unfolding check_decoded
check_decoded-safe uri s h = elim (Option-cases (first_rejection (decoded_tests s))) [
  | inr (reason, e) ↦ rw (e, check_decoded) tt
  | inl e ↦
      rw (e, check_decoded)
        (decoded_tests-IsSafePath s (first_rejection-none (decoded_tests s) e), h)
]

check_raw-safe : (s : Text) → SafeIfAccepted (some s) (check_raw s)
unfolding check_raw
check_raw-safe s = elim (Option-cases (first_rejection (raw_tests s))) [
  | inr (reason, e) ↦ rw (e, check_raw) tt
  | inl e ↦ elim (Option-cases (decode_uri_component s)) [
    | inl k ↦ rw (e, k, check_raw) tt
    | inr (decoded, k) ↦ rw (e, k, check_raw) (check_decoded-safe (some s) decoded k)
  ]
]

check-safe : (uri : Option Text) → SafeIfAccepted uri (check_workspace_relative_path uri)
unfolding check_workspace_relative_path
check-safe none = tt
check-safe (some uri) = check_raw-safe uri

blocked : (c : ArtifactOpenBlockCode) (path : Text) → cannot_open c ≢ can_open path
blocked c path e = cc

-- A gate that is passed.
passes :
    (b : Bool) (c : ArtifactOpenBlockCode) (x : ArtifactOpenDecision) (path : Text)
    → (if b then cannot_open c else x) ≡ can_open path
    → (b ≡ false) × (x ≡ can_open path)
passes true c x path e = absurd (blocked c path e)
passes false c x path e = (refl, e)

not-false : (b : Bool) → not b ≡ false → b ≡ true
not-false true e = refl
not-false false e = absurd (true-ne-false e)

is_available-status : (o : Option CapabilityStatus) → is_available o ≡ true → o ≡ some available
is_available-status (some available) e = refl
is_available-status (some not_available) e = absurd (true-ne-false (sym e))
is_available-status (some unverified) e = absurd (true-ne-false (sym e))
is_available-status none e = absurd (true-ne-false (sym e))

pub record IsOpenable (r : ArtifactRecord) (manifest : CapabilityManifest) (has_host : Bool)
    (path : Text) : Type 0 where
  pub current : is_deleted r.phase ≡ false
  pub located : is_some r.unavailable_reason ≡ false
  pub decoded : decode_given r.uri ≡ some path
  pub safe : IsSafePath path
  pub advertised : artifact_status manifest ≡ some available
  pub hosted : has_host ≡ true

open_checked-safe :
    (uri : Option Text) (check : WorkspacePathCheck) (manifest : CapabilityManifest)
    (has_host : Bool) (path : Text)
    → SafeIfAccepted uri check
    → open_checked check manifest has_host ≡ can_open path
    → (IsSafePath path × (decode_given uri ≡ some path))
      × (artifact_status manifest ≡ some available)
      × (has_host ≡ true)
unfolding open_path
open_checked-safe uri (rejected_path reason) manifest has_host path h e = absurd (blocked _ _ e)
open_checked-safe uri (accepted_path shown) manifest has_host path h e =
    let (a, rest) = passes (not (is_available (artifact_status manifest))) _ _ path e in
    let (b, same) = passes (not has_host) _ _ path rest in
    let equal : shown ≡ path = opened same in
    (
      subst (λ p. IsSafePath p × (decode_given uri ≡ some p)) equal h,
      is_available-status (artifact_status manifest) (not-false _ a),
      not-false has_host b,
    )
  where
    opened : {s t : Text} → can_open s ≡ can_open t → s ≡ t
    opened k = cc

-- When the decision is to open, for any artifact, manifest and host: the artifact is not deleted and
-- has no reason why it is unavailable, the manifest says that artifacts are available, the host has
-- the callback, and the path is the locator of the artifact, decoded once. This path does not begin
-- with a tilde, none of its segments is empty or `..`, and none of its units is a control
-- character, a percent sign, a backslash, a colon, a question mark or a number sign.
pub opened_path-IsOpenable :
    (r : ArtifactRecord) (manifest : CapabilityManifest) (has_host : Bool) (path : Text)
    → artifact_open_decision r manifest has_host ≡ can_open path
    → IsOpenable r manifest has_host path
unfolding artifact_open_decision
opened_path-IsOpenable r manifest has_host path e =
    let (current, e1) = passes (is_deleted r.phase) _ _ path e in
    let (located, e2) = passes (is_some r.unavailable_reason) _ _ path e1 in
    let (given_uri, e3) = passes (not (is_some r.uri)) _ _ path e2 in
    let ((safe, decoded), advertised, hosted) =
      open_checked-safe r.uri (check_workspace_relative_path r.uri) manifest has_host path
        (check-safe r.uri) e3 in
    record {
      current = current;
      located = located;
      decoded = decoded;
      safe = safe;
      advertised = advertised;
      hosted = hosted;
    }
