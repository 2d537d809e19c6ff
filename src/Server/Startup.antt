-- ===== src/Server/Startup.antt =====
-- internal/db/lifecycle.go, and what cmd/server/main.go does about the database. C is the type of the
-- generated client; the logger and the ten seconds that are never waited for leave no trace.
use store_order.Base.{
  String, Option, none, some, Result, ok, err, is_empty, not, if◌then◌else◌, ◌<>◌,
}

-- db.NewClient, with a datasource or without, and Prisma.Connect
pub record Clients (C : Type 0) : Type 0 where
  pub new_client : Option String → C
  pub connect : C → Result (Unit {0})

module _ {C : Type 0} (clients : Clients C) where
  unfoldable pub init_client : String → Result C
  init_client database_url =
      let client =
        clients.new_client (if not (is_empty database_url) then some database_url else none) in
      elim (clients.connect client) [
        | ok _ ↦ ok client
        | err e ↦ err ("failed to connect to PostgreSQL: " <> e)
      ]

  -- the client that the program goes on with: one that is not connected, where the connection fails
  unfoldable pub database_client : String → C
  unfolding init_client
  database_client database_url = elim (init_client database_url) [
    | ok client ↦ client
    | err e ↦ clients.new_client none
  ]
