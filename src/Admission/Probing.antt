-- ===== src/Admission/Probing.antt =====
-- packages/plugin/src/ip-pool.ts: the probe of one exit, which `probeAll` and `probeExit` share.
use dsh_opencode.Base.{
  ℕ, Bool, true, false, List, [], ◌∷◌, Text, codes, Option, none, some, if◌then◌else◌,
}
use dsh_opencode.Pool.Types.{ExitNode, ExitSource, ExitPool}
use dsh_opencode.Pool.Table.{add}
use dsh_opencode.Pool.Signals.{is_free, mark_ok, mark_limited, mark_dead_strike}
use dsh_opencode.Admission.Screen.{EchoResponse, ScreenOptions}
use dsh_opencode.Admission.Admit.{Wires, AdmissionResult, admit_candidate, Previous, admit_trusted}

-- One round of the loop over the models: the model, the time, and what the requests bring.
pub record Round : Type 0 where
  pub model : Text
  pub now : ℕ
  pub wires : Wires

abbrev pub trusted_source : ExitSource → ExitSource
trusted_source ExitSource.manual = ExitSource.manual
trusted_source _ = ExitSource.subscription

abbrev pub no_options : ScreenOptions
no_options = record { relaxed = false; pinned = false; timeout_ms = none }

abbrev pub previous_of : ExitNode → Option Previous
previous_of n = some (record {
  exit_ip = n.exit_ip;
  exit_location = n.exit_location;
  latency_ms = n.latency_ms;
  quality = some n.quality;
})

abbrev pub probe_models_or_default : List Text → List Text
probe_models_or_default [] = codes "big-pickle" ∷ []
probe_models_or_default (m ∷ ms) = m ∷ ms

-- What the probe writes for an admitted node: it keeps the pin of the entry.
abbrev pub entered : ExitNode → ExitNode → ExitNode
entered entry node = record node { pinned = entry.pinned }

module _ (parse_echo : Text → Option EchoResponse) (blocked : Option (List Text)) where
  unfoldable pub verdict_of : ExitNode → Round → AdmissionResult
  unfolding admit_candidate admit_trusted
  verdict_of entry r =
      if is_free entry.source
      then admit_candidate parse_echo blocked r.now
          (record { address = entry.id; protocol = entry.protocol; source = ExitSource.free })
          no_options none r.wires
      else admit_trusted parse_echo blocked r.now
          (record {
            address = entry.id;
            protocol = entry.protocol;
            source = trusted_source entry.source;
          })
          entry.pinned (previous_of entry) r.wires

  abbrev pub admit_entry : ℕ → Text → ExitNode → ExitNode → Bool → ExitPool → ExitPool
  admit_entry now model entry node limited p =
      let q = (add (entered entry node) p).0 in
      if limited then (mark_limited now entry.id q).0 else mark_ok now entry.id (some model) q

  -- The body of a round, and whether the loop goes on.
  abbrev pub probe_round : ExitNode → Round → AdmissionResult → ExitPool → ExitPool × Bool
  probe_round entry r (AdmissionResult.admitted node limited) p =
      (admit_entry r.now r.model entry node limited p, true)
  probe_round entry r (AdmissionResult.refused m) p = ((mark_dead_strike entry.id p).0, false)

  -- The task of one exit: the models in their order, up to the first refusal.
  unfoldable pub probe_entry : ExitNode → List Round → ExitPool → ExitPool
  unfolding verdict_of add mark_ok mark_limited mark_dead_strike
  probe_entry entry [] p = p
  probe_entry entry (r ∷ rs) p =
      let (q, more) = probe_round entry r (verdict_of entry r) p in
      let rest = probe_entry entry rs q in if more then rest else q
