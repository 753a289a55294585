-- ===== src/Web/Laws.antt =====
-- What an HTTP reply tells about the documents.
use hexagonal_queue.Prelude.{String, ◌≡◌, none, Result, ok, err, arith, Error, ◌≢◌}
use hexagonal_queue.Prelude.Int.{ℤ, pos, ◌≤ℤ◌}
use hexagonal_queue.Platform.{Platform}
use hexagonal_queue.Models.{TransactionRequest, TransactionResponse}
use hexagonal_queue.Ports.Store.{Store, find_user}
use hexagonal_queue.Flow.Ends.{Ends}
use hexagonal_queue.Wallet.Movement.Posted.{Maker}
use hexagonal_queue.Wallet.Movement.Laws.{Outcome}
use hexagonal_queue.Web.{Reply, result_reply, history_limit}

-- Whatever the query says, the page of the history has a limit from 1 to 100.
history_limit_in_range :
    (limit : Result ℤ) → (pos 1 ≤ℤ history_limit limit) × (history_limit limit ≤ℤ pos 100)
unfolding history_limit
history_limit_in_range (err e) = (omega arith, omega arith)
history_limit_in_range (ok limit) = ground arith

-- The request that a handler passes on.
abbrev pub with_action :
    {p : Platform} → String → String → TransactionRequest p → TransactionRequest p
with_action action authorization request = record request {
  action = action;
  parent_token = authorization;
}

module _ {p : Platform} where
  -- A reply to a movement: refused as malformed, if the body could not be bound, or as unauthorized,
  -- without a parent token, before anything was read; or else the response of the use case with its
  -- code.
  pub data Replied (make : Maker p) (authorization : String) (action : String)
      (Accepted : TransactionRequest p → Type 0) (before : Store p)
      (bound : Result (TransactionRequest p)) (reply : Reply p) (after : Store p) : Type 0 where
    malformed :
        (e : Error)
        → bound ≡ err e
        → reply.code ≡ 400
        → after ≡ before
        → Replied make authorization action Accepted before bound reply after
    unauthorized :
        (request : TransactionRequest p)
        → bound ≡ ok request
        → authorization ≡ ""
        → reply.code ≡ 401
        → after ≡ before
        → Replied make authorization action Accepted before bound reply after
    served :
        (request : TransactionRequest p)
        → bound ≡ ok request
        → authorization ≢ ""
        → (r : TransactionResponse p) → reply ≡ result_reply 200 r
        → Outcome make
            (with_action action authorization request)
            (Accepted (with_action action authorization request))
            before
            r
            after
        → Replied make authorization action Accepted before bound reply after

  -- The member named in the body was not found.
  abbrev pub Unknown : String → Result (TransactionRequest p) → Store p → Type 0
  Unknown authorization bound before =
      (request : TransactionRequest p) × (bound ≡ ok request)
      × (find_user request.username authorization before ≡ none)
