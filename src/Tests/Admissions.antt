-- ===== src/Tests/Admissions.antt =====
-- A candidate that the gate admits, and a manual exit that is probed
-- (packages/plugin/test/admission.test.ts).
use dsh_opencode.Base.{
  ℕ, ◌≡◌, refl, Bool, true, false, List, [], ◌∷◌, Text, codes, Option, none, some,
}
use dsh_opencode.Base.{text_dec}
use dsh_opencode.Base.Maps.{lookup}
use dsh_opencode.Pool.Types.{
  fresh_health, ExitNode, ExitSource, Protocol, node_of, health_of, ban_of,
}
use dsh_opencode.Admission.Screen.{Wire, EchoResponse, EchoFacts, ScreenOptions}
use dsh_opencode.Admission.Admit.{Candidate, Wires, AdmissionResult, node_from, admit_candidate}
use dsh_opencode.Admission.Verdicts
use dsh_opencode.Admission.Verdicts.{PassesScreen, PassesGate}
use dsh_opencode.Admission.Probing.{Round, verdict_of, probe_round, probe_entry}
use dsh_opencode.Admission.Interleaved
use dsh_opencode.Admission.Interleaved.{
  Body, World, body, play, Move, plays, locks, unlocks, Moves, here, next,
}
use dsh_opencode.Admission.Spares.{unlocked}
use dsh_opencode.Pool.Table.{take_probe_lock}
use dsh_opencode.Pool.Selection.{is_usable}
use dsh_opencode.Admission.Vouched
use dsh_opencode.Admission.Vouched.{IsOk}
use dsh_opencode.Base.{length, drop, ◌+◌, ap, if◌then◌else◌}
use dsh_opencode.Base.Json.{Json, Number, end, field}
use dsh_opencode.Singbox.Outbound.{ParsedNode, whole_number}
use dsh_opencode.Singbox.Config.{generate_config}
use dsh_opencode.Singbox.Wiring
use dsh_opencode.Singbox.Wiring.{IsWired}
use dsh_opencode.Tests.Exits.{two, id_b, node_a, node_b, program}
use dsh_opencode.Tests.Limits.{a_ne_b, id_a-NulFree, id_b-NulFree}

abbrev echo : EchoResponse
echo = record {
  status = some (codes "success");
  query = some (codes "9.9.9.9");
  country_code = some (codes "US");
  city = some (codes "Reno");
}

abbrev parse : Text → Option EchoResponse
parse t = some echo

abbrev options : ScreenOptions
options = record { relaxed = false; pinned = false; timeout_ms = none }

abbrev answer : ℕ → Wire
answer status = Wire.answers 700 (record { status = status; body = [] })

abbrev facts : EchoFacts
facts = record { exit_ip = codes "9.9.9.9"; exit_location = codes "US Reno"; latency_ms = 700 }

abbrev candidate : Candidate
candidate = record { address = codes "c:3"; protocol = Protocol.http; source = ExitSource.free }

abbrev wires : Wires
wires = record { agent_error = none; echo = answer 200; models = answer 200; smoke = answer 429 }

abbrev admitted : ExitNode
admitted = node_from 8 candidate false facts

admit_candidate-admitted_example :
    let result = admit_candidate parse none 8 candidate options none wires in
    (result ≡ AdmissionResult.admitted admitted true
      → PassesGate parse none 8 candidate options none wires admitted true)
    × (PassesGate parse none 8 candidate options none wires admitted true
        → result ≡ AdmissionResult.admitted admitted true)
admit_candidate-admitted_example =
    Verdicts.admit_candidate-admitted parse none 8 candidate options none wires admitted true

abbrev dead : Wires
dead = record {
  agent_error = some (codes "no agent");
  echo = answer 500;
  models = answer 500;
  smoke = answer 500;
}

abbrev round : Round
round = record { model = codes "m"; now = 9; wires = dead }

abbrev first_task : Body
first_task = body node_b (round ∷ [])

abbrev other_tasks : List Body
other_tasks = body node_a (record round { wires = wires } ∷ []) ∷ []

-- The second task ends its round first, while the first one holds its lock.
abbrev start : World
start = record { pool = two; bodies = first_task ∷ other_tasks }

abbrev locked : World
locked = record start { pool = (take_probe_lock id_b two).0 }

abbrev halfway : World
halfway =
    play parse none (first_task ∷ []) [] node_a (record round { wires = wires }) [] locked.pool

abbrev left_over : List Body
left_over = drop 1 halfway.bodies

abbrev finish : World
finish = play parse none [] left_over node_b round [] halfway.pool

start-finish : Moves parse none start finish
unfolding play
start-finish =
    next
      (next (next here (locks id_b))
        (plays (first_task ∷ []) [] node_a (record round { wires = wires }) [] refl))
      (plays [] left_over node_b round [] refl)

no_rounds : (more : Bool) → if◌then◌else◌ {A = List Round} more [] [] ≡ []
no_rounds true = refl
no_rounds false = refl

finish-bodies : finish.bodies ≡ body node_b [] ∷ left_over
unfolding play
finish-bodies =
    ap (λ xs. body node_b xs ∷ left_over)
      (no_rounds
        (probe_round parse none node_b round (verdict_of parse none node_b round) halfway.pool).1)

known_b : health_of id_b two ≡ some fresh_health
unfolding program
known_b = refl

there_b : node_of id_b two ≡ some node_b
unfolding program
there_b = refl

probe_entry-interleaved_example :
    let alone = probe_entry parse none node_b (round ∷ []) two in
    (unlocked (health_of id_b finish.pool) ≡ unlocked (health_of id_b alone))
    × ((m : Text) → ban_of id_b m finish.pool ≡ ban_of id_b m alone)
    × ((t : ℕ) (m : Text) → is_usable t id_b m finish.pool ≡ is_usable t id_b m alone)
probe_entry-interleaved_example =
    Interleaved.probe_entry-interleaved parse none node_b (round ∷ []) other_tasks left_over two
      id_b-NulFree ((id_a-NulFree, a_ne_b), tt) there_b known_b start-finish finish-bodies

probe_entry-IsOk_example : IsOk node_b.id (probe_entry parse none node_b (round ∷ []) two)
unfolding lookup text_dec
probe_entry-IsOk_example =
    Vouched.probe_entry-IsOk parse none node_b round [] two refl (fresh_health, refl)

abbrev trojan : ParsedNode
trojan = record {
  name = codes "t";
  node_type = codes "trojan";
  server = codes "h";
  port = whole_number 443;
  raw = field (codes "password") (Json.str (codes "p")) end;
}

abbrev unread : Option Json → Option Number
unread v = none

generate_config-IsWired_example :
    IsWired 1 30000
      (length (trojan ∷ record trojan { node_type = codes "snell" } ∷ []) + 30000)
      (generate_config unread 30000 (trojan ∷ record trojan { node_type = codes "snell" } ∷ []))
generate_config-IsWired_example =
    Wiring.generate_config-IsWired unread 30000
      (trojan ∷ record trojan { node_type = codes "snell" } ∷ [])
