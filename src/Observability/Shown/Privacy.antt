-- ===== src/Observability/Shown/Privacy.antt =====
-- What an observer is shown of an event (observability/bus.py, `_project_event`).
use proteo_runtime.Prelude.{
  String, Bool, true, false, not, ◌&&◌, ◌||◌, ◌≡◌, refl, Option, none, some, List, [], ◌∷◌, inl,
  inr, Bool-cases, string_eq,
}
use proteo_runtime.Tools.Values.{Value, dict_value, proxy_value, Entries, end, entry}
use proteo_runtime.Observability.Failures.{
  PayloadMode, disabled, metadata_only, redacted, full, is_disabled,
}
use proteo_runtime.Observability.Keys.{
  Python, normal_key, is_secret_key, is_sensitive, is_excluded, is_shown, is_metadata_only,
  is_redacted_mode, key_name,
}
use proteo_runtime.Observability.Projection.{is_withheld, operational_metadata, project_metadata}
use proteo_runtime.Observability.Shown.{
  full_metadata, ShownDiagnostic, ShownResult, ShownEvent, Projected, project_diagnostics,
  project_result, project_event,
}
use proteo_runtime.Observability.Projection.Clean.{is_clean, clean_entries, clean_entries-put}
use proteo_runtime.Observability.Projection.Safety.{value-clean, project_value-guarded}

unfoldable pub clean_details : Python → PayloadMode → List ShownDiagnostic → Bool
clean_details p m [] = true
clean_details p m (d ∷ ds) = is_clean p m d.details && clean_details p m ds

unfoldable pub is_absent : Option Value → Bool
is_absent none = true
is_absent (some v) = false

unfoldable pub clean_result : Python → PayloadMode → Option ShownResult → Bool
clean_result p m none = true
clean_result p m (some r) =
    is_absent r.raw && (is_clean p m r.value && clean_details p m r.diagnostics)

is_empty_mapping : Value → Bool
is_empty_mapping (proxy_value end) = true
is_empty_mapping _ = false

is_dropped : Option ShownResult → Bool
is_dropped none = true
is_dropped (some r) = false

-- Neither a payload nor a result.
unfoldable pub is_withdrawn : Projected → Bool
unfolding is_empty_mapping is_dropped
is_withdrawn x = is_empty_mapping x.payload && is_dropped x.result

-- No raw result, a clean payload, a clean result with clean details, and clean metadata, where metadata
-- stays readable beside redacted payloads.
unfoldable pub is_private : Python → PayloadMode → Projected → Bool
is_private p m x =
    (not (is_metadata_only m) || is_withdrawn x)
    && (is_clean p m x.payload
        && (clean_result p m x.result && (is_redacted_mode m || is_clean p m x.metadata)))

hidden-none : (a b c : Bool) → (a || b || c) ≡ false → (a ≡ false) × (b ≡ false) × (c ≡ false)
hidden-none false false false h = (refl, refl, refl)
hidden-none true b c h = absurd (cc)
hidden-none false true c h = absurd (cc)
hidden-none false false true h = absurd (cc)

is_withheld-parts :
    (p : Python) (k : String)
    → is_withheld p k ≡ false
    → (is_sensitive (normal_key p k) ≡ false)
      × (is_excluded (normal_key p k) ≡ false)
      × (is_secret_key p k ≡ false)
unfolding is_withheld
is_withheld-parts p k h =
    hidden-none (is_sensitive (normal_key p k)) (is_excluded (normal_key p k)) (is_secret_key p k) h

is_shown-operational :
    (p : Python) (k : String)
    → is_sensitive (normal_key p k) ≡ false
    → is_excluded (normal_key p k) ≡ false
    → is_shown p metadata_only k ≡ true
unfolding is_shown is_metadata_only
is_shown-operational p k a b = rw (a, b) refl

operational_metadata-clean :
    (p : Python) (es done : Entries)
    → clean_entries p metadata_only done ≡ true
    → clean_entries p metadata_only (operational_metadata p es done) ≡ true
unfolding operational_metadata
operational_metadata-clean p end done h = h
operational_metadata-clean p (entry k v es) done h =
    let name = key_name p k in
    elim (Bool-cases (is_withheld p name)) [
      | inl hit ↦ rw hit (operational_metadata-clean p es done h)
      | inr kept ↦
          (let (a, b, c) = is_withheld-parts p name kept in
            rw kept (
              operational_metadata-clean p es _ (
                clean_entries-put p metadata_only name _ done (is_shown-operational p name a b)
                  (project_value-guarded p metadata_only name v)
                  (value-clean p metadata_only (some name) v) h)))
    ]

clean_details-project :
    (p : Python) (m : PayloadMode) (ds : List ShownDiagnostic)
    → clean_details p m (project_diagnostics p m ds) ≡ true
unfolding clean_details project_diagnostics
clean_details-project p m [] = refl
clean_details-project p m (d ∷ ds) =
    rw (value-clean p m none d.details, clean_details-project p m ds) refl

clean_result-project :
    (p : Python) (m : PayloadMode) (r : ShownResult)
    → clean_result p m (some (project_result p m r)) ≡ true
unfolding clean_result project_result is_absent
clean_result-project p m r =
    rw (value-clean p m none r.value, clean_details-project p m r.diagnostics) refl

clean_result-none : (p : Python) (m : PayloadMode) → clean_result p m none ≡ true
unfolding clean_result
clean_result-none p m = refl

clean_result-shown :
    (p : Python) (m : PayloadMode) (o : Option ShownResult)
    → clean_result p m (elim o [ none ↦ none | some r ↦ some (project_result p m r) ]) ≡ true
clean_result-shown p m none = clean_result-none p m
clean_result-shown p m (some r) = clean_result-project p m r

empty-clean : (p : Python) (m : PayloadMode) → is_clean p m (proxy_value end) ≡ true
unfolding is_clean clean_entries
empty-clean p m = refl

wrapped-clean :
    (p : Python) (m : PayloadMode) (es : Entries)
    → clean_entries p m es ≡ true
    → is_clean p m (proxy_value es) ≡ true
unfolding is_clean
wrapped-clean p m es h = h

end-clean : (p : Python) → clean_entries p metadata_only end ≡ true
unfolding clean_entries
end-clean p = refl

-- The metadata, where they are not kept readable beside redacted payloads.
metadata-clean :
    (p : Python) (m : PayloadMode) (es : Entries)
    → is_disabled m ≡ false
    → (is_redacted_mode m || is_clean p m (project_metadata p m es)) ≡ true
unfolding is_disabled is_redacted_mode project_metadata
metadata-clean p disabled es h = absurd (cc)
metadata-clean p metadata_only es h =
    wrapped-clean p metadata_only (operational_metadata p es end)
      (operational_metadata-clean p es end (end-clean p))
metadata-clean p redacted es h = refl
metadata-clean p full es h = value-clean p full none (dict_value es)

-- What is shown to an observer that is not disabled holds no raw result. In its payload, in the value and
-- the diagnostics of its result, and in its metadata except those beside redacted payloads, no excluded key
-- is left at any depth, a key that looks like a secret has the value [REDACTED], and a text under a session
-- key is a correlation; where payloads are redacted, nothing but masks and empty values is left in them. For
-- metadata only, no content-bearing key is left, the payload is empty and there is no result.
pub project_event-is_private :
    (p : Python) (m : PayloadMode) (e : ShownEvent)
    → is_disabled m ≡ false
    → is_private p m (project_event p m e) ≡ true
unfolding is_private project_event is_withdrawn
project_event-is_private p m e h =
    let shown = metadata-clean p m (full_metadata p e) h in
    elim (Bool-cases (is_metadata_only m)) [
      | inl only ↦ rw only (rw (empty-clean p m, clean_result-none p m, shown) refl)
      | inr more ↦
          rw more (rw (value-clean p m none e.payload, clean_result-shown p m e.result, shown) refl)
    ]
