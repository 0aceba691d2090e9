-- ===== src/Dispatcher/Observer.antt =====
-- packages/plugin/src/pool/dispatcher.ts: `#observe`, the wrapper of one request's handler. The
-- callbacks of undici and the end of the silence timer are the signals; `passed` records the
-- callbacks that reach the downstream handler, which is taken to have every method, as the one of
-- `fetch` has.
use dsh_opencode.Base.{
  ℕ, Bool, true, false, ◌||◌, List, [], ◌∷◌, ◌++◌, Text, Option, none, some, if◌then◌else◌,
}
use dsh_opencode.Pool.Types.{ExitPool}
use dsh_opencode.Pool.Passive.{
  PassiveKind, record_passive, record_passive_transport, reroute_session,
}

pub data Signal : Type 0 where
  request_start : Signal
  request_upgrade : ℕ → Signal
  response_start : ℕ → Signal
  response_data : Signal
  response_end : Signal
  response_error : Signal
  response_started : Signal
  body_sent : Signal
  request_sent : Signal
  silence : Signal

-- What the downstream handler is called with.
pub data Passed : Type 0 where
  forwards : Signal → Passed
  silence_error : Passed

pub record Observer : Type 0 where
  pub pool : ExitPool
  pub exit_id : Text
  pub model : Text
  pub session : Text
  pub sentinel_ms : ℕ
  pub headers_ms : ℕ
  pub classified : Bool
  pub has_controller : Bool
  pub aborted : Bool
  pub saw_request_start : Bool
  pub armed : Option ℕ
  pub passed : List Passed

unfoldable pub arm_sentinel : Observer → Observer
arm_sentinel o = record o {
  armed = some (if o.saw_request_start then o.headers_ms else o.sentinel_ms);
}

-- The start of `#observe`, at the time of the dispatch.
unfoldable pub observe : Text → Text → Text → ℕ → ℕ → ExitPool → Observer
unfolding arm_sentinel
observe exit_id model session sentinel_ms headers_ms pool = arm_sentinel (record {
  pool = pool;
  exit_id = exit_id;
  model = model;
  session = session;
  sentinel_ms = sentinel_ms;
  headers_ms = headers_ms;
  classified = false;
  has_controller = false;
  aborted = false;
  saw_request_start = false;
  armed = none;
  passed = [];
})

abbrev pub is_ok : PassiveKind → Bool
is_ok PassiveKind.ok = true
is_ok _ = false

-- What a response line does to the table: a verdict other than ok frees the session.
unfoldable pub status_outcome : ℕ → Text → Text → Text → ℕ → ExitPool → ExitPool
unfolding record_passive reroute_session
status_outcome now exit_id model session status pool =
    let (recorded, verdict) = record_passive now exit_id status model false pool in
    if is_ok verdict then recorded else reroute_session session recorded

-- `classify`
unfoldable pub classify : ℕ → ℕ → Observer → Observer
unfolding status_outcome
classify now status o = if o.classified then o else record o {
  classified = true;
  pool = status_outcome now o.exit_id o.model o.session status o.pool;
}

unfoldable pub transport_outcome : Text → Text → ExitPool → ExitPool
unfolding record_passive_transport reroute_session
transport_outcome exit_id session pool =
    reroute_session session (record_passive_transport exit_id pool)

-- `classifyTransport`
unfoldable pub classify_transport : Observer → Observer
unfolding transport_outcome
classify_transport o = if o.classified then o else record o {
  classified = true;
  pool = transport_outcome o.exit_id o.session o.pool;
  passed = o.passed ++ (silence_error ∷ []);
  aborted = o.aborted || o.has_controller;
}

abbrev disarm : Observer → Observer
disarm o = record o { armed = none }

abbrev seen : Observer → Observer
seen o = record o { has_controller = true }

abbrev forward : Signal → Observer → Observer
forward s o = record o { passed = o.passed ++ (forwards s ∷ []) }

-- The end of the timer, where it is still set.
abbrev fire : Option ℕ → Observer → Observer
fire none o = o
fire (some window) o = classify_transport (disarm o)

-- The handler that `#observe` returns, one method for each signal, and its timer.
unfoldable pub handle : ℕ → Signal → Observer → Observer
unfolding arm_sentinel classify classify_transport
handle now Signal.request_start o =
    forward Signal.request_start (arm_sentinel (record (seen o) { saw_request_start = true }))
handle now (Signal.request_upgrade status) o =
    forward (Signal.request_upgrade status) (disarm (seen o))
handle now (Signal.response_start status) o =
    forward (Signal.response_start status) (classify now status (disarm (seen o)))
handle now Signal.response_data o = forward Signal.response_data (seen o)
handle now Signal.response_end o = forward Signal.response_end (disarm (seen o))
handle now Signal.response_error o =
    forward Signal.response_error (classify_transport (disarm (seen o)))
handle now Signal.response_started o = forward Signal.response_started (disarm o)
handle now Signal.body_sent o = forward Signal.body_sent o
handle now Signal.request_sent o = forward Signal.request_sent o
handle now Signal.silence o = fire o.armed o

unfoldable pub handle_all : List (ℕ × Signal) → Observer → Observer
unfolding handle
handle_all [] o = o
handle_all ((now, s) ∷ rest) o = handle_all rest (handle now s o)
