-- ===== src/Integrations/Races.antt =====
-- What two requests in flight at the same time do to the list of connections.
use justprojects.Base.{String, ◌≡◌, ◌≢◌, refl, true, false, List, [], ◌∷◌, any, arith, eq_iff, ◌++◌}
use mathlib.Core.List.{append_assoc}
use justprojects.Types.{GitConnection}
use justprojects.Workspace.{fulfilled}
use justprojects.Integrations.{Integrations, disconnect_job}
use justprojects.Integrations.Events.{settle}
use justprojects.Integrations.Providers.{
  start_disconnect, after_disconnect, has_connection_id, without_connection,
}

without-others :
    (a b : String) (cs : List GitConnection)
    → a ≢ b
    → any (has_connection_id a) (without_connection b cs) ≡ any (has_connection_id a) cs
without-others a b [] n = refl
without-others a b (c ∷ cs) n =
    ground (arith, without-others a b cs n, eq_iff c.id a, eq_iff c.id b)

without-itself :
    (a : String) (cs : List GitConnection)
    → any (has_connection_id a) (without_connection a cs) ≡ false
without-itself a [] = refl
without-itself a (c ∷ cs) = ground (arith, without-itself a cs)

after_disconnect-available :
    (c : GitConnection) (listed : List GitConnection) (selected : String) (v : Integrations)
    → (after_disconnect c listed selected (fulfilled tt) v).available
      ≡ without_connection c.id listed
unfolding after_disconnect
after_disconnect-available c listed selected v = ground arith

both_asked :
    (a b : GitConnection) (v : Integrations)
    → v.configured ≡ true
    → (start_disconnect b (start_disconnect a v)).pending
      ≡ v.pending
        ++ disconnect_job a v.available v.selected_id
          ∷ disconnect_job b v.available v.selected_id
          ∷ []
unfolding start_disconnect
both_asked a b v on = rw on (
    append_assoc v.pending (disconnect_job a v.available v.selected_id ∷ [])
      (disconnect_job b v.available v.selected_id ∷ []))

-- If, with a backend, two connections are disconnected at once, both requests wait with the list and
-- the selection from before both; if both succeed, the first connection leaves the list with its own
-- answer, but is listed again after the answer to the second.
pub late_disconnect_restores :
    (a b : GitConnection) (v : Integrations)
    → v.configured ≡ true
    → any (has_connection_id a.id) v.available ≡ true
    → a.id ≢ b.id
    → (let first = disconnect_job a v.available v.selected_id in
        let second = disconnect_job b v.available v.selected_id in
        let both = start_disconnect b (start_disconnect a v) in
        let once =
          settle first (fulfilled tt) (record both { pending = v.pending ++ second ∷ [] }) in
        let twice = settle second (fulfilled tt) once in
        (both.pending ≡ v.pending ++ first ∷ second ∷ [])
        × (any (has_connection_id a.id) once.available ≡ false)
        × (any (has_connection_id a.id) twice.available ≡ true))
unfolding settle
late_disconnect_restores a b v on listed n = (
  both_asked a b v on,
  rw (after_disconnect-available a v.available v.selected_id) (without-itself a.id v.available),
  rw
      (
        after_disconnect-available b v.available v.selected_id,
        without-others a.id b.id v.available n,
      )
      listed,
)
