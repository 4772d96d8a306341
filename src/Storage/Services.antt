-- ===== src/Storage/Services.antt =====
-- internal/storage/repositories.go: the statements on the table `services`.
use localcloud.Base.{
  ltb, eqb, if◌then◌else◌, Bytes, codes, Bool, true, false, not, ◌&&◌, ◌||◌, List, [], ◌∷◌, ◌++◌,
  ◌==◌,
}
use localcloud.Timeline.{ServiceHealth}
use localcloud.Storage.Sql.{run, stored_time, has_row, update_where, Result, constraint, ok, err}
use localcloud.Storage.Schema.{service_status_ok, Db}

-- ServiceRepository. The row of a service keeps its type.
abbrev pub refreshed : ServiceHealth → ServiceHealth → ServiceHealth
refreshed h row = record row {
  status = h.status;
  endpoint = h.endpoint;
  container_id = h.container_id;
  last_checked_at = stored_time h.last_checked_at;
  message = h.message;
  metadata = h.metadata;
}

abbrev pub stored_service : ServiceHealth → ServiceHealth
stored_service h = record h { last_checked_at = stored_time h.last_checked_at }

-- INSERT … ON CONFLICT(service) DO UPDATE.
unfoldable pub upsert_row : ServiceHealth → List ServiceHealth → List ServiceHealth
unfolding has_row update_where
upsert_row h rows =
    if has_row (λ s. s.service == h.service) rows
    then update_where (λ s. s.service == h.service) (refreshed h) rows
    else rows ++ stored_service h ∷ []

unfoldable pub upsert_service : Bool → ServiceHealth → Db → Result Db
unfolding service_status_ok upsert_row
upsert_service io h db = run io (
    if not (service_status_ok h.status)
    then err constraint
    else ok (record db { services = upsert_row h db.services }))

-- The order of texts, byte by byte.
unfoldable pub leb_bytes : Bytes → Bytes → Bool
leb_bytes [] t = true
leb_bytes (c ∷ s) [] = false
leb_bytes (c ∷ s) (d ∷ t) = ltb c d || (eqb c d && leb_bytes s t)

unfoldable pub insert_by_name : ServiceHealth → List ServiceHealth → List ServiceHealth
unfolding leb_bytes
insert_by_name h [] = h ∷ []
insert_by_name h (s ∷ rows) =
    if leb_bytes (codes h.service) (codes s.service)
    then h ∷ s ∷ rows
    else s ∷ insert_by_name h rows

unfoldable pub order_by_name : List ServiceHealth → List ServiceHealth
unfolding insert_by_name
order_by_name [] = []
order_by_name (h ∷ rows) = insert_by_name h (order_by_name rows)

-- SELECT … ORDER BY service ASC.
unfoldable pub list_services : Db → List ServiceHealth
unfolding order_by_name
list_services db = order_by_name db.services
