-- ===== src/Bridge/Handlers.antt =====
-- packages/plugin/src/ip-pool-settings/bridge.ts: the handlers behind the routes, and what a route
-- answers.
use dsh_opencode.Base.{
  Bool, true, false, not, List, [], ◌∷◌, ◌++◌, map, Text, codes, Option, none, some, if◌then◌else◌,
  same, text_dec,
}
use dsh_opencode.Base.Json.{Json, is_object}
use dsh_opencode.Catalog.Prices.{static_free_models, member_of}

pub record ModelRow : Type 0 where
  pub id : Text
  pub verified : Bool

abbrev pub verified_row : Text → ModelRow
verified_row id = record { id = id; verified = true }

-- The loop over the live catalog, with the ids seen so far.
unfoldable pub live_rows : List Text → List Text → List ModelRow
unfolding member_of
live_rows seen [] = []
live_rows seen (id ∷ ids) =
    let known = live_rows seen ids in
    let fresh = record { id = id; verified = false } ∷ live_rows (id ∷ seen) ids in
    if same id [] then known else if member_of seen id then known else fresh

-- `models`
unfoldable pub model_rows : List Text → List ModelRow
unfolding live_rows static_free_models
model_rows live = map verified_row static_free_models ++ live_rows static_free_models live

-- What `probe` does with a body: an error, or one of the runtime's actions.
pub data ProbeAction : Type 0 where
  rejected : Text → Text → ProbeAction
  probes_all : ProbeAction
  refills : ProbeAction
  probes_exit : Text → ProbeAction

abbrev pub exit_of : Option Text → Text
exit_of none = []
exit_of (some id) = id

abbrev pub bad_scope : ProbeAction
bad_scope =
    rejected (codes "settings-rejected") (codes "probe scope must be 'all', 'exit' or 'refill'")

abbrev pub probe_known : Bool → Text → ProbeAction
probe_known true id = probes_exit id
probe_known false id =
    rejected (codes "unknown-exit") (codes "exit \"" ++ id ++ codes "\" is not in the pool")

abbrev pub is_post : Option Text → Bool
is_post none = false
is_post (some method) = same method (codes "POST")

abbrev pub is_object_body : Option Json → Bool
is_object_body none = false
is_object_body (some v) = is_object v

-- `probe`, over whether the runtime is there and which exits it has; the scopes of the body that
-- are no texts match none of the three.
unfoldable pub probe : Bool → (Text → Bool) → Option Text → Option Text → ProbeAction
unfolding text_dec
probe false has_exit scope exit_id =
    rejected (codes "pool-disabled") (codes "ip pool is not running (enabled off)")
probe true has_exit none exit_id = bad_scope
probe true has_exit (some scope) exit_id =
    if same scope (codes "all")
    then probes_all
    else if same scope (codes "refill")
    then refills
    else if same scope (codes "exit")
    then probe_known (has_exit (exit_of exit_id)) (exit_of exit_id)
    else bad_scope

-- What a route answers: a status, or the handler's result.
pub data Answer : Type 0 where
  forbidden : Answer
  not_allowed : Text → Answer
  unreadable : Answer
  runs : Answer

-- `check`
unfoldable pub check : Bool → Option Text → Option Answer
unfolding text_dec
check trusted method =
    if not trusted
    then some forbidden
    else if is_post method
    then none
    else some (not_allowed (exit_of method))

-- The route of `probe`: the check, the body, the handler. `none` is a body that is too large or no
-- JSON.
unfoldable pub probe_route : Bool → Option Text → Option Json → Answer
unfolding check
probe_route trusted method body = elim (check trusted method) [
  | some answer ↦ answer
  | none ↦ if is_object_body body then runs else unreadable
]
