-- ===== src/Integrations/Providers.antt =====
-- The connections: `connectGitHub`, `installGitHubApp`, `selectConnection`,
-- `handleConnectionCreated`, `disconnect`, and the effect that follows the parent's data.
use justprojects.Base.{
  String, Bool, true, false, not, Option, none, some, get_or, List, [], ◌∷◌, filter, truthy, ◌==◌,
  if◌then◌else◌,
}
use justprojects.Toast.{success}
use justprojects.Types.{present, reference, Project, GitConnection}
use justprojects.Workspace.{Outcome, fulfilled, rejected}
use justprojects.Integrations.{
  text, toast, open_url, change_connection, list_connections, github_url, install_url, told_parent,
  disconnect_job, Integrations, await, emit, fail, clean,
}

-- `connectGitHub`; without a backend its `finally` follows at once
unfoldable pub start_connect : Integrations → Integrations
start_connect v =
    if v.configured
    then await github_url (record v { connecting = true; error = none })
    else record (fail "integrations.connectThenRefresh" v) { connecting = false }

unfoldable pub after_connect : Outcome String → Integrations → Integrations
after_connect (fulfilled url) v = record (emit (open_url url) v) { connecting = false }
after_connect (rejected f) v = record (fail "integrations.connectionError" v) { connecting = false }

-- `installGitHubApp`
unfoldable pub start_install : Integrations → Integrations
start_install v =
    if v.configured
    then await install_url (record v { installing = true; error = none })
    else record (fail "integrations.backendRequired" v) { installing = false }

unfoldable pub after_install : Outcome String → Integrations → Integrations
after_install (fulfilled url) v = record (emit (open_url url) v) { installing = false }
after_install (rejected f) v = record (fail "integrations.connectionError" v) { installing = false }

-- `value === "none" ? "" : (value ?? "")`, and `nextID || null`
abbrev pub next_id : Option String → String
next_id value = let id = get_or value "" in if id == "none" then "" else id

abbrev pub id_or_null : String → Option String
id_or_null id = if truthy id then some id else none

-- `selectConnection`; nothing follows its `await`
unfoldable pub select_connection : Option String → Integrations → Integrations
select_connection value v =
    let id = next_id value in
    emit (change_connection (id_or_null id)) (record v { selected_id = id; repositories = [] })

abbrev pub has_connection_id : String → GitConnection → Bool
has_connection_id id item = item.id == id

-- the list without the connection
abbrev pub without_connection : String → List GitConnection → List GitConnection
without_connection id = filter (λ item. not (has_connection_id id item))

-- `setAvailableConnections(next)` and `onConnectionsChange(next)`
abbrev pub list_available : List GitConnection → Integrations → Integrations
list_available next v = emit (list_connections next) (record v { available = next })

-- `!project.connectionId`
abbrev pub is_unconnected : Project → Bool
is_unconnected project = elim (reference project.connection_id) [ none ↦ true | some id ↦ false ]

-- `handleConnectionCreated`
unfoldable pub connection_created : GitConnection → Integrations → Integrations
unfolding select_connection
connection_created connection v =
    let listed = list_available (connection ∷ without_connection connection.id v.available) v in
    if is_unconnected v.project
    then clean (select_connection (some connection.id) listed)
    else emit (toast success (text "integrations.connectionSaved")) (clean listed)

-- `disconnect` up to its first `await`. It goes on with the list and the selection of this moment.
unfoldable pub start_disconnect : GitConnection → Integrations → Integrations
start_disconnect connection v =
    if v.configured
    then await (disconnect_job connection v.available v.selected_id) (clean v)
    else v

abbrev pub disconnected : Integrations → Integrations
disconnected v = emit (toast success (text "integrations.disconnect")) v

unfoldable pub after_disconnect :
    GitConnection → List GitConnection → String → Outcome (Unit {0}) → Integrations → Integrations
after_disconnect connection available selected (fulfilled done) v =
    let listed = list_available (without_connection connection.id available) v in
    if selected == connection.id
    then await told_parent (emit (change_connection none) (record listed { selected_id = "" }))
    else disconnected listed
after_disconnect connection available selected (rejected f) v =
    fail "integrations.connectionError" v

-- behind `await onProjectConnectionChange(null)`, which is never rejected
unfoldable pub after_told_parent : Outcome (Unit {0}) → Integrations → Integrations
after_told_parent (fulfilled done) v = disconnected v
after_told_parent (rejected f) v = fail "integrations.connectionError" v

-- the effect that follows a change of the connections or of the project's connection
unfoldable pub follow_parent : Project → List GitConnection → Integrations → Integrations
follow_parent project connections v = record v {
  project = project;
  connections = connections;
  available = connections;
  selected_id = get_or (present project.connection_id) "";
}
