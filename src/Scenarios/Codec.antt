-- ===== src/Scenarios/Codec.antt =====
-- Requests and responses as they are, for bodies, of which a response loses the type of its data, and a handler that answers by the kind of request.
use hexagonal_queue.Prelude.{◌≡◌, refl, ◌⊎◌, inl, inr, Result, ok, err, new, ok-injective}
use mathlib.Core.Path.{subst}
use hexagonal_queue.Prelude.Int.{pos}
use hexagonal_queue.Platform.Exact.{units}
use hexagonal_queue.Models.{
  TransactionRequest, TransactionResponse, Payload, nil, moved, balance_of, balances_of, decoded,
}
use hexagonal_queue.Utils.Text.{to_upper}
use hexagonal_queue.Flow.{next, response}
use hexagonal_queue.Queue.{Codec, CodecLaws, Tokens, TransactionHandler, dispatch}
use hexagonal_queue.Scenarios.Fixture.{request_of}

abbrev pub Body : Type 0
Body = TransactionRequest units ⊎ TransactionResponse units

abbrev pub read_request : Body → Result (TransactionRequest units)
read_request (inl r) = ok r
read_request (inr r) = err (new "no request")

-- An object of JSON, known by the name of what it shows.
abbrev pub as_map : Payload units → Payload units
as_map nil = nil
as_map (moved x) = decoded "transaction"
as_map (balance_of x) = decoded "balance"
as_map (balances_of xs) = decoded "balances"
as_map (Payload.member x) = decoded "member"
as_map (decoded text) = decoded text

abbrev pub read_response : Body → Result (TransactionResponse units)
read_response (inl r) = err (new "no response")
read_response (inr r) = ok (record r { payload = as_map r.payload })

abbrev pub codec : Codec units Body
codec = record {
  marshal_request = λ r. ok (inl r);
  unmarshal_request = read_request;
  marshal_response = λ r. ok (inr r);
  unmarshal_response = read_response;
}

pub codec_laws : CodecLaws codec
codec_laws = record {
  reread = as_map;
  request_back = λ r body h. subst (λ b. read_request b ≡ ok r) (ok-injective h) refl;
  response_back = λ r body h.
      subst (λ b. read_response b ≡ ok (record r { payload = as_map r.payload })) (ok-injective h)
        refl;
  reread_nil = refl;
}

abbrev pub Quiet : Type 0
Quiet = Unit {0}

abbrev pub tokens : Tokens Quiet
tokens = record {
  generate_transaction_id = λ name s. ("c1", s);
  generate_uuid = λ s. ("0b6f", s);
  unix_time = λ s. ("0", s);
}

abbrev pub done : TransactionResponse units
done = record (response 200 "Deposit successful") {
  payload = balance_of (record { username = "ann"; current_balance = pos 530 });
}

abbrev pub handler : TransactionHandler units Quiet (Unit {0})
handler = record {
  handle_deposit = λ c r s. (next done, s);
  handle_withdraw = λ c r s. (next (response 400 "Insufficient balance"), s);
  handle_create_member = λ c r s. (next (response 409 "Username already exists"), s);
}

abbrev pub request : TransactionRequest units
request = record (request_of (pos 30)) { action = "deposit" }

pub handled : dispatch handler (to_upper units "deposit") request tt ≡ (next done, tt)
unfolding dispatch to_upper
handled = refl
