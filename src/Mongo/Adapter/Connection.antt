-- ===== src/Mongo/Adapter/Connection.antt =====
-- `NewMongoAdapter`, `createIndexes`, `Close` and `HealthCheck` of mongo_adapter.go. The timeouts are
-- left out.
use hexagonal_queue.Prelude.{String, Bool, true, false, List, [], ◌∷◌}
use hexagonal_queue.Platform.{Platform}
use hexagonal_queue.Ports.{Operation}
use hexagonal_queue.Operation.{pure, ◌>>◌, wrapping, attempt}
use hexagonal_queue.Mongo.Driver.{Driver, IndexKey, IndexModel}

-- `MongoConfig`, without the timeouts.
pub record MongoConfig : Type 0 where
  pub uri : String
  pub database : String
  pub users_collection : String
  pub balances_collection : String
  pub statements_collection : String

abbrev pub mongo_config : String → String → MongoConfig
mongo_config uri database = record {
  uri = uri;
  database = database;
  users_collection = "users";
  balances_collection = "account_balances";
  statements_collection = "wallet_statements";
}

abbrev asc : String → IndexKey
asc key = record { key = key; ascending = true }

abbrev desc : String → IndexKey
desc key = record { key = key; ascending = false }

abbrev index : Bool → List IndexKey → IndexModel
index unique keys = record { keys = keys; unique = unique }

abbrev pub users_indexes : List IndexModel
users_indexes =
    index true (asc "username" ∷ asc "parent_token" ∷ [])
    ∷ index true (asc "token" ∷ [])
    ∷ index false (asc "parent_token" ∷ [])
    ∷ []

abbrev pub balances_indexes : List IndexModel
balances_indexes =
    index true (asc "username" ∷ asc "parent_token" ∷ [])
    ∷ index false (asc "parent_token" ∷ [])
    ∷ index false (desc "updated_at" ∷ [])
    ∷ []

abbrev pub statements_indexes : List IndexModel
statements_indexes =
    index false (asc "username" ∷ asc "parent_token" ∷ desc "datetime" ∷ [])
    ∷ index false (asc "parent_token" ∷ desc "datetime" ∷ [])
    ∷ index false (desc "datetime" ∷ [])
    ∷ index false (asc "channel" ∷ desc "datetime" ∷ [])
    ∷ []

module _ {p : Platform} {S T : Type 0} (driver : Driver p S T) where
  unfoldable pub create_indexes : MongoConfig → Operation S (Unit {0})
  create_indexes config = do
    wrapping "failed to create users indexes: "
        (driver.create_many config.users_collection users_indexes)
    wrapping "failed to create balances indexes: "
        (driver.create_many config.balances_collection balances_indexes)
    wrapping "failed to create statements indexes: "
        (driver.create_many config.statements_collection statements_indexes)

  -- An adapter that could not create its indexes is used all the same.
  unfoldable pub new_mongo_adapter : String → String → Operation S MongoConfig
  new_mongo_adapter uri database = do
    wrapping "failed to connect to MongoDB: " (driver.connect uri)
    wrapping "failed to ping MongoDB: " driver.ping
    attempt (create_indexes (mongo_config uri database))
    pure (mongo_config uri database)

  unfoldable pub close : Operation S (Unit {0})
  close = driver.disconnect

  unfoldable pub health_check : Operation S (Unit {0})
  health_check = driver.ping
