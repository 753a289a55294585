-- ===== src/Models.antt =====
-- internal/domain/models: the documents, the requests and the responses. A `time.Time` is
-- counted in whole milliseconds, as a BSON date keeps it; an `ObjectID` is a number; `interface{}` is the type of the payloads that the code puts
-- there.
use hexagonal_queue.Prelude.{ℕ, String, List}
use hexagonal_queue.Platform.{Platform}

pub record User : Type 0 where
  pub id : ℕ
  pub username : String
  pub parent_token : String
  pub token : String
  pub type_member : String
  pub status : ℕ
  pub created_at : ℕ
  pub updated_at : ℕ

-- The reply to a created member.
pub record CreateMemberRequest : Type 0 where
  pub date_time : ℕ
  pub username : String

module _ (p : Platform) where
  pub record WalletStatement : Type 0 where
    pub id : ℕ
    pub datetime : ℕ
    pub username : String
    pub parent_token : String
    pub amount : p.Decimal
    pub before_credit : p.Decimal
    pub after_credit : p.Decimal
    pub status : ℕ
    pub is_check : ℕ
    pub type_name : String
    pub type_action : String
    pub description : String
    pub hash : String
    pub channel : String

  pub record AccountBalance : Type 0 where
    pub id : ℕ
    pub username : String
    pub parent_token : String
    pub token : String
    pub balance : p.Decimal
    pub status : ℕ
    pub created_at : ℕ
    pub updated_at : ℕ

  pub record TransactionRequest : Type 0 where
    pub parent_token : String
    pub token : String
    pub username : String
    pub action : String
    pub type_name : String
    pub amount : p.Float
    pub channel : String
    pub description : String
    pub lang : String

  pub record DepositWithdrawResponse : Type 0 where
    pub username : String
    pub current_balance : p.Float
    pub before_balance : p.Float
    pub after_balance : p.Float

  pub record BalanceResponse : Type 0 where
    pub username : String
    pub current_balance : p.Float

  pub data Payload : Type 0 where
    nil : Payload
    moved : DepositWithdrawResponse → Payload
    balance_of : BalanceResponse → Payload
    balances_of : List BalanceResponse → Payload
    member : CreateMemberRequest → Payload
    -- the `map[string]interface{}` that `encoding/json` makes of the text of an object
    decoded : String → Payload

  pub record TransactionResponse : Type 0 where
    pub status : ℕ
    pub message : String
    pub payload : Payload
