-- ===== src/Redis/Json.antt =====
-- encoding/json on `domain.Transaction`, by the tags of internal/domain/transaction.go.
pub mod Reading
use payment_gateway_router.Common.{
  String, Bool, true, false, not, ◌||◌, Option, none, some, List, [], ◌∷◌, str_eq, if◌then◌else◌,
}
use payment_gateway_router.Go.Int.{ℤ, pos}
use payment_gateway_router.Go.Float64
use payment_gateway_router.Go.Float64.{Float64}
use payment_gateway_router.Go.Time.{Time, zero_time}
use payment_gateway_router.Domain.Errors.{Error, Result, ok, err, message, ◌>>=◌, ◌>>◌}
use payment_gateway_router.Domain.Encoding.{encode_transaction}
use payment_gateway_router.Domain.Json.{Fields, end}
use payment_gateway_router.Domain.Transaction.{
  Transaction, TransactionStatus, pending, success, failure, other,
}
use payment_gateway_router.Redis.Server.{Formats, JsonText, Member, text, numeral, object, Table}

-- `string(status)`, and the status of a text.
abbrev pub status_text : TransactionStatus → String
status_text pending = "pending"
status_text success = "success"
status_text failure = "failure"
status_text (other s) = s

abbrev pub text_status : String → TransactionStatus
text_status s =
    if str_eq s "pending"
    then pending
    else if str_eq s "success"
    then success
    else if str_eq s "failure"
    then failure
    else other s

-- `omitempty` on a string and on a map
abbrev pub omit_empty : String → Option Member
omit_empty s = if str_eq s "" then none else some (text s)

abbrev pub omit_empty_fields : Option Fields → Option Member
omit_empty_fields none = none
omit_empty_fields (some end) = none
omit_empty_fields (some fields) = some (object fields)

-- encoding/json on a field that may be absent, which leaves the zero value.
abbrev pub read_string : Option Member → Result String
read_string none = ok ""
read_string (some (text s)) = ok s
read_string (some _) = err (message "json: cannot unmarshal into a string")

abbrev pub read_number : {A : Type 0} → (String → Result A) → A → Option Member → Result A
read_number parse zero none = ok zero
read_number parse zero (some (numeral s)) = parse s
read_number parse zero (some _) = err (message "json: cannot unmarshal into a number")

abbrev pub read_fields : Option Member → Result (Option Fields)
read_fields none = ok none
read_fields (some (object fields)) = ok (some fields)
read_fields (some _) = err (message "json: cannot unmarshal into a map")

abbrev pub read_time : (String → Result Time) → Option Member → Result Time
read_time parse none = ok zero_time
read_time parse (some (text s)) = parse s
read_time parse (some _) = err (message "json: cannot unmarshal into a time")

abbrev pub read_pointer : (String → Result Time) → Option Member → Result (Option Time)
read_pointer parse none = ok none
read_pointer parse (some member) = read_time parse (some member) >>= λ t. ok (some t)

module _ (formats : Formats) where
  abbrev pub omit_nil : Option Time → Option Member
  omit_nil none = none
  omit_nil (some t) = some (text (formats.format_time t))

  -- The object of a transaction, for the text of its amount.
  unfoldable pub table_of : Transaction → String → Table
  table_of t amount name =
      if str_eq name "transaction_id"
      then some (text t.id)
      else if str_eq name "order_id"
      then some (text t.order_id)
      else if str_eq name "attempt_no"
      then some (numeral (formats.format_int t.attempt_no))
      else if str_eq name "amount"
      then some (numeral amount)
      else if str_eq name "payment_instrument"
      then omit_empty_fields t.payment_instrument
      else if str_eq name "gateway"
      then some (text t.gateway)
      else if str_eq name "gateway_reference_id"
      then omit_empty t.gateway_reference_id
      else if str_eq name "status"
      then some (text (status_text t.status))
      else if str_eq name "failure_reason"
      then omit_empty t.failure_reason
      else if str_eq name "created_at"
      then some (text (formats.format_time t.created_at))
      else if str_eq name "updated_at"
      then some (text (formats.format_time t.updated_at))
      else if str_eq name "completed_at"
      then omit_nil t.completed_at
      else none

  -- The transaction that an object stands for.
  unfoldable pub transaction_of : Table → Result Transaction
  transaction_of table = do
    id ← read_string (table "transaction_id")
    order_id ← read_string (table "order_id")
    attempt_no ← read_number formats.parse_int (pos 0) (table "attempt_no")
    amount ← read_number formats.parse_float (Float64.of_ℕ 0) (table "amount")
    payment_instrument ← read_fields (table "payment_instrument")
    gateway ← read_string (table "gateway")
    gateway_reference_id ← read_string (table "gateway_reference_id")
    status ← read_string (table "status")
    failure_reason ← read_string (table "failure_reason")
    created_at ← read_time formats.parse_time (table "created_at")
    updated_at ← read_time formats.parse_time (table "updated_at")
    completed_at ← read_pointer formats.parse_time (table "completed_at")
    ok (record {
      id = id;
      order_id = order_id;
      attempt_no = attempt_no;
      amount = amount;
      payment_instrument = payment_instrument;
      gateway = gateway;
      gateway_reference_id = gateway_reference_id;
      status = text_status status;
      failure_reason = failure_reason;
      created_at = created_at;
      updated_at = updated_at;
      completed_at = completed_at;
    })

  -- `json.Marshal(transaction)`, which refuses what JSON cannot write.
  unfoldable pub marshal : {V : Type 0} → JsonText V → Transaction → Result V
  marshal json t =
      encode_transaction t
      >> (formats.format_float t.amount >>= λ amount. ok (json.print (table_of t amount)))

  -- `decodeTransaction`
  unfoldable pub decode_transaction : {V : Type 0} → JsonText V → V → Result Transaction
  decode_transaction json payload = json.parse payload >>= transaction_of
