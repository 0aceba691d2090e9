-- ===== src/Admission/Configured.antt =====
-- packages/plugin/src/ip-pool.ts: the settings act on the exit table through its methods.
use dsh_opencode.Base.{
  ℕ, ◌≡◌, refl, ap, ◌∙◌, inl, inr, Bool, true, false, List, [], ◌∷◌, ◌++◌, Text, Option, none, some,
  Option-cases, subst,
}
use dsh_opencode.Pool.Types.{ExitPool, new_pool}
use dsh_opencode.Pool.Calls.{Call, step, run}
use dsh_opencode.Pool.Invariant.{IsConsistent}
use dsh_opencode.Pool.Preserve.{run-new_pool-Consistent}
use dsh_opencode.Admission.Manual.{
  ManualProxy, parse_manual_proxy, manual_node, add_entries, add_pinned, default_options,
  build_pool_from_config,
}
use dsh_opencode.Sources.Lines.{trim}

run-append :
    (coin : Text → Text → Bool) (xs ys : List (ℕ × Call)) (p : ExitPool)
    → run coin (xs ++ ys) p ≡ run coin ys (run coin xs p)
unfolding run
run-append coin [] ys p = refl
run-append coin ((now, c) ∷ xs) ys p = run-append coin xs ys (step coin now c p)

abbrev pub manual_calls : ℕ → Bool → ManualProxy → List (ℕ × Call) → List (ℕ × Call)
manual_calls now pinned proxy rest =
    (now, Call.adds (manual_node now pinned proxy)) ∷ (now, Call.marks_ok proxy.id none) ∷ rest

-- The calls that the settings make.
unfoldable pub entries_calls : ℕ → List Text → List (ℕ × Call)
entries_calls now [] = []
entries_calls now (entry ∷ entries) = elim (parse_manual_proxy entry) [
  | none ↦ entries_calls now entries
  | some proxy ↦ manual_calls now false proxy (entries_calls now entries)
]

unfoldable pub pinned_calls : ℕ → Option Text → List (ℕ × Call)
pinned_calls now none = []
pinned_calls now (some entry) = elim (parse_manual_proxy (trim entry)) [
  | none ↦ []
  | some proxy ↦ manual_calls now true proxy ((now, Call.pins proxy.id) ∷ [])
]

abbrev pub settings_calls : ℕ → Option (List Text) → Option Text → List (ℕ × Call)
settings_calls now none pinned = pinned_calls now pinned
settings_calls now (some entries) pinned = entries_calls now entries ++ pinned_calls now pinned

add_entries-run :
    (coin : Text → Text → Bool) (now : ℕ) (entries : List Text) (p : ExitPool)
    → run coin (entries_calls now entries) p ≡ add_entries now entries p
unfolding entries_calls add_entries run step
add_entries-run coin now [] p = refl
add_entries-run coin now (entry ∷ entries) p = elim (Option-cases (parse_manual_proxy entry)) [
  | inl e ↦ rw (e, entries_calls, add_entries) (add_entries-run coin now entries p)
  | inr (proxy, e) ↦ rw (e, entries_calls, add_entries) (add_entries-run coin now entries _)
]

add_pinned-run :
    (coin : Text → Text → Bool) (now : ℕ) (pinned : Option Text) (p : ExitPool)
    → run coin (pinned_calls now pinned) p ≡ add_pinned now pinned p
unfolding pinned_calls add_pinned run step
add_pinned-run coin now none p = refl
add_pinned-run coin now (some entry) p = elim (Option-cases (parse_manual_proxy (trim entry))) [
  | inl e ↦ rw (e, pinned_calls, add_pinned) refl
  | inr (proxy, e) ↦ rw (e, pinned_calls, add_pinned) refl
]

build-run :
    (coin : Text → Text → Bool) (now : ℕ) (entries : Option (List Text)) (pinned : Option Text)
    → run coin (settings_calls now entries pinned) (new_pool default_options)
      ≡ build_pool_from_config now entries pinned
unfolding build_pool_from_config
build-run coin now none pinned = add_pinned-run coin now pinned _
build-run coin now (some entries) pinned =
    run-append coin (entries_calls now entries) (pinned_calls now pinned) _
    ∙ add_pinned-run coin now pinned _
    ∙ ap (add_pinned now pinned) (add_entries-run coin now entries _)

-- A table built from the settings is consistent.
pub build_pool_from_config-Consistent :
    (now : ℕ) (entries : Option (List Text)) (pinned : Option Text)
    → IsConsistent (build_pool_from_config now entries pinned)
build_pool_from_config-Consistent now entries pinned =
    subst IsConsistent (build-run (λ s t. true) now entries pinned)
      (run-new_pool-Consistent (λ s t. true) default_options (settings_calls now entries pinned))
