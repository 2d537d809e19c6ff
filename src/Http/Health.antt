-- ===== src/Http/Health.antt =====
-- internal/handler/health_handler.go.
use store_order.Base.{[], ◌∷◌, Bool, if◌then◌else◌}
use store_order.Schema.{Time}
use store_order.Runtime.{Runtime}
use store_order.Http.{Handler, respond_json, health_body}

-- `has_client` says whether the handler has a database client, connected or not
unfoldable pub check : {S : Type 0} → Runtime → Bool → Time → Handler S
check rt has_client now r s = (
  respond_json 200 (
      health_body (record {
        status = "UP";
        service = "store_order";
        timestamp = rt.rfc3339_utc now;
        checks = ("database", if has_client then "UP" else "STANDBY") ∷ [];
      })),
  s,
)
