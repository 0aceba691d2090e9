-- ===== src/SubscriptionFetcher.antt =====
-- packages/plugin/src/pool/subscription-fetcher.ts: `SubscriptionFetcher`. A refresh is split where
-- it awaits: the bodies, the conversion by the bridge, and the verdict of each admission, which
-- other calls may come between. A node's number stands for the identity of its object.
use dsh_opencode.Base.{
  ℕ, ◌+◌, max, Bool, true, false, not, ◌||◌, List, [], ◌∷◌, ◌++◌, Text, codes, Option, none, some,
  if◌then◌else◌, ◌==◌, keep, same, text_dec,
}
use dsh_opencode.Base.Maps.{has}
use dsh_opencode.Pool.Types.{ExitPool, ExitNode, Protocol, or_else}
use dsh_opencode.Pool.Table.{add}
use dsh_opencode.Pool.Signals.{mark_ok}
use dsh_opencode.Refill.{Verdict}
use dsh_opencode.Sources.Lines.{trim}
use dsh_opencode.Singbox.Outbound.{ParsedNode}
use dsh_opencode.Subscription.Links.{Throwing}
use dsh_opencode.Subscription.Detect.{Platform, ParseReport, parse_subscription}

pub record SubscriptionState : Type 0 where
  pub pending_conversion : List (ℕ × ParsedNode)
  pub converted_admitted : ℕ
  pub last_fetch : ℕ
  pub last_error : Text
  pub plaintext_admitted : ℕ

-- `timer` holds the interval that the running timer was set with.
pub record Fetcher : Type 0 where
  pub urls : List Text
  pub state : SubscriptionState
  pub timer : Option ℕ
  pub running : Bool
  pub stopped : Bool
  pub interval_ms : ℕ

unfoldable pub new_fetcher : Option ℕ → Fetcher
new_fetcher interval = record {
  urls = [];
  state = record {
    pending_conversion = [];
    converted_admitted = 0;
    last_fetch = 0;
    last_error = [];
    plaintext_admitted = 0;
  };
  timer = none;
  running = false;
  stopped = false;
  interval_ms = or_else interval 1800000;
}

unfoldable pub set_urls : List Text → Fetcher → Fetcher
unfolding keep trim
set_urls urls f = record f { urls = keep (λ url. not (same (trim url) [])) urls }

abbrev pub renewed : ℕ → Option ℕ → Option ℕ
renewed ms none = none
renewed ms (some old) = some ms

unfoldable pub set_interval_ms : ℕ → Fetcher → Fetcher
set_interval_ms ms f = record f {
  interval_ms = max 60000 ms;
  timer = renewed (max 60000 ms) f.timer;
}

-- The start of `refresh`: it goes on where no other is running.
unfoldable pub begin_refresh : Fetcher → Fetcher × Bool
begin_refresh f = if f.running then (f, false) else (record f { running = true }, true)

abbrev pub has_timer {ℓ} : {A : Type ℓ} → Option A → Bool
has_timer none = false
has_timer (some a) = true

unfoldable pub start_fetcher : Fetcher → Fetcher
unfolding begin_refresh
start_fetcher f =
    if has_timer f.timer || f.stopped
    then f
    else record ((begin_refresh f).0) { timer = some f.interval_ms }

unfoldable pub stop_fetcher : Fetcher → Fetcher
stop_fetcher f = record f { stopped = true; timer = none }

-- What a URL answered, with the message of an error that its parser may throw, or the message of
-- the error that its request threw.
pub data Fetched : Type 0 where
  answered : Text → Text → Fetched
  failed : Text → Fetched

pub record CollectedNodes : Type 0 where
  pub pending : List (ℕ × ParsedNode)
  pub plaintext : List (Text × Protocol)
  pub last_error : Text
  pub next : ℕ

abbrev pub address_of : ParsedNode → Text
address_of node = node.server ++ codes ":" ++ node.port.text

abbrev pub park : ParsedNode → CollectedNodes → CollectedNodes
park node c = record c { pending = c.pending ++ ((c.next, node) ∷ []); next = c.next + 1 }

abbrev pub dial : ParsedNode → Protocol → CollectedNodes → CollectedNodes
dial node protocol c = record c { plaintext = c.plaintext ++ ((address_of node, protocol) ∷ []) }

unfoldable pub route_node : ParsedNode → CollectedNodes → CollectedNodes
unfolding text_dec
route_node node c =
    if same node.node_type (codes "http")
    then dial node Protocol.http c
    else if same node.node_type (codes "socks5")
    then dial node Protocol.socks5 c
    else park node c

unfoldable pub route_nodes : List ParsedNode → CollectedNodes → CollectedNodes
unfolding route_node
route_nodes [] c = c
route_nodes (node ∷ nodes) c = route_nodes nodes (route_node node c)

abbrev pub take_report : Text → Throwing ParseReport → CollectedNodes → CollectedNodes
take_report message none c = record c { last_error = message }
take_report message (some r) c = route_nodes r.nodes c

unfoldable pub take_bodies : Platform → List Fetched → CollectedNodes → CollectedNodes
unfolding parse_subscription route_nodes
take_bodies platform [] c = c
take_bodies platform (failed message ∷ rest) c =
    take_bodies platform rest (record c { last_error = message })
take_bodies platform (answered body message ∷ rest) c =
    take_bodies platform rest (take_report message (parse_subscription platform body) c)

unfoldable pub collect : Platform → List Fetched → CollectedNodes
unfolding take_bodies
collect platform bodies =
    take_bodies platform bodies (record { pending = []; plaintext = []; last_error = []; next = 0 })

-- The state after the bodies were read.
unfoldable pub fetched : ℕ → CollectedNodes → Fetcher → Fetcher
fetched now c f = record f {
  state = record {
    pending_conversion = c.pending;
    converted_admitted = 0;
    last_fetch = now;
    last_error = c.last_error;
    plaintext_admitted = 0;
  };
}

-- What the bridge made of a pending node.
pub record ConvertedExit : Type 0 where
  pub address : Text
  pub served : ℕ

-- The exits and the plain addresses that the table has not yet, each of which gets a task.
abbrev pub converted_tasks : ExitPool → List ConvertedExit → List ConvertedExit
converted_tasks pool exits = keep (λ e. not (has text_dec e.address pool.nodes)) exits

abbrev pub plain_tasks : ExitPool → List (Text × Protocol) → List (Text × Protocol)
plain_tasks pool plaintext = keep (λ e. not (has text_dec e.0 pool.nodes)) plaintext

-- `state.lastError` where the conversion throws.
unfoldable pub conversion_failed : Text → Fetcher → Fetcher
conversion_failed message f = record f { state = record f.state { last_error = message } }

abbrev pub admitted_node : Verdict → Option ExitNode
admitted_node v = if v.admitted then v.node else none

abbrev pub drop_served : ℕ → List (ℕ × ParsedNode) → List (ℕ × ParsedNode)
drop_served served pending = keep (λ e. not (e.0 == served)) pending

abbrev pub count_converted : ℕ → SubscriptionState → SubscriptionState
count_converted served s = record s {
  converted_admitted = s.converted_admitted + 1;
  pending_conversion = drop_served served s.pending_conversion;
}

abbrev pub count_plaintext : SubscriptionState → SubscriptionState
count_plaintext s = record s { plaintext_admitted = s.plaintext_admitted + 1 }

-- The end of a task: a node that is admitted and added is marked, and the state counts it.
abbrev pub seated :
    ℕ
    → ExitNode
    → (SubscriptionState → SubscriptionState)
    → Fetcher
    → ExitPool × Bool
    → ExitPool × Fetcher
seated now node count f (pool, false) = (pool, f)
seated now node count f (pool, true) =
    (mark_ok now node.id none pool, record f { state = count f.state })

abbrev pub seat :
    ℕ
    → Option ExitNode
    → (SubscriptionState → SubscriptionState)
    → ExitPool × Fetcher
    → ExitPool × Fetcher
seat now none count (pool, f) = (pool, f)
seat now (some node) count (pool, f) = seated now node count f (add node pool)

unfoldable pub judge_converted : ℕ → ℕ → Verdict → ExitPool × Fetcher → ExitPool × Fetcher
unfolding add mark_ok keep
judge_converted now served v s = seat now (admitted_node v) (count_converted served) s

unfoldable pub judge_plaintext : ℕ → Verdict → ExitPool × Fetcher → ExitPool × Fetcher
unfolding add mark_ok
judge_plaintext now v s = seat now (admitted_node v) count_plaintext s

-- The `finally` of `refresh`.
unfoldable pub end_refresh : Fetcher → Fetcher
end_refresh f = record f { running = false }
