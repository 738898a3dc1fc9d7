-- ===== src/Redis/Json/Reading.antt =====
-- What `decodeTransaction` reads of the object that encoding/json writes for a transaction.
use payment_gateway_router.Common.{
  ◌||◌, String, ◌≡◌, refl, true, Option, none, some, str_eq, eq_iff, Bool-cases, inl, inr, sym, ap,
}
use payment_gateway_router.Go.Int.{pos}
use payment_gateway_router.Go.Float64
use payment_gateway_router.Go.Float64.{Float64}
use payment_gateway_router.Go.Time.{Time}
use payment_gateway_router.Domain.Errors.{ok}
use payment_gateway_router.Domain.Json.{Fields, end, field}
use payment_gateway_router.Domain.Transaction.{
  Transaction, TransactionStatus, is_final, status_eq, pending, success, failure, other,
}
use payment_gateway_router.Redis.Server.{Formats, FormatsLaws, IsDated, text, Table}
use payment_gateway_router.Redis.Json.{
  status_text, text_status, omit_empty, omit_empty_fields, omit_nil, read_string, read_number,
  read_fields, read_time, read_pointer, table_of, transaction_of,
}

-- The empty map is omitted, and so is read as nil.
abbrev pub canonical_fields : Option Fields → Option Fields
canonical_fields (some end) = none
canonical_fields fields = fields

abbrev pub canonical : Transaction → Transaction
canonical t = record t {
  payment_instrument = canonical_fields t.payment_instrument;
  status = text_status (status_text t.status);
}

-- The times of a transaction can be written.
abbrev pub IsDatedPointer : Option Time → Type 0
IsDatedPointer none = Unit
IsDatedPointer (some t) = IsDated t

abbrev pub Dated : Transaction → Type 0
Dated t = IsDated t.created_at × IsDated t.updated_at × IsDatedPointer t.completed_at

read_string-omit_empty : (s : String) → read_string (omit_empty s) ≡ ok s
read_string-omit_empty s = elim (Bool-cases (str_eq s "")) [
  | inl e ↦ rw e (ap ok (sym ((eq_iff s "").0 e)))
  | inr e ↦ rw e refl
]

read_fields-omit_empty_fields :
    (fields : Option Fields) → read_fields (omit_empty_fields fields) ≡ ok (canonical_fields fields)
read_fields-omit_empty_fields none = refl
read_fields-omit_empty_fields (some end) = refl
read_fields-omit_empty_fields (some (field name value rest)) = refl

module _ (formats : Formats) (laws : FormatsLaws formats) where
  read_pointer-omit_nil :
      (t : Option Time)
      → IsDatedPointer t
      → read_pointer formats.parse_time (omit_nil formats t) ≡ ok t
  read_pointer-omit_nil none h = refl
  read_pointer-omit_nil (some t) h = rw (laws.parse_time-format_time t h) refl

-- What a table says of each field.
pub record Reads (formats : Formats) (table : Table) (t : Transaction) : Type 0 where
  pub id : read_string (table "transaction_id") ≡ ok t.id
  pub order_id : read_string (table "order_id") ≡ ok t.order_id
  pub attempt_no : read_number formats.parse_int (pos 0) (table "attempt_no") ≡ ok t.attempt_no
  pub amount : read_number formats.parse_float (Float64.of_ℕ 0) (table "amount") ≡ ok t.amount
  pub payment_instrument : read_fields (table "payment_instrument") ≡ ok t.payment_instrument
  pub gateway : read_string (table "gateway") ≡ ok t.gateway
  pub gateway_reference_id : read_string (table "gateway_reference_id") ≡ ok t.gateway_reference_id
  pub status : table "status" ≡ some (text (status_text t.status))
  pub spelled : text_status (status_text t.status) ≡ t.status
  pub failure_reason : read_string (table "failure_reason") ≡ ok t.failure_reason
  pub created_at : read_time formats.parse_time (table "created_at") ≡ ok t.created_at
  pub updated_at : read_time formats.parse_time (table "updated_at") ≡ ok t.updated_at
  pub completed_at : read_pointer formats.parse_time (table "completed_at") ≡ ok t.completed_at

pub transaction_of-Reads :
    (formats : Formats) (table : Table) (t : Transaction)
    → Reads formats table t
    → transaction_of formats table ≡ ok t
unfolding transaction_of
transaction_of-Reads formats table t r =
    rw
      (
        r.id, r.order_id, r.attempt_no, r.amount, r.payment_instrument, r.gateway,
        r.gateway_reference_id, r.status, r.failure_reason, r.created_at, r.updated_at,
        r.completed_at, r.spelled,
      )
      refl

text_of_status : (s : String) → status_text (text_status s) ≡ s
text_of_status s = elim (Bool-cases (str_eq s "pending")) [
  | inl e ↦ rw e (sym ((eq_iff s "pending").0 e))
  | inr e ↦ elim (Bool-cases (str_eq s "success")) [
    | inl f ↦ rw (e, f) (sym ((eq_iff s "success").0 f))
    | inr f ↦ elim (Bool-cases (str_eq s "failure")) [
      | inl g ↦ rw (e, f, g) (sym ((eq_iff s "failure").0 g))
      | inr g ↦ rw (e, f, g) refl
    ]
  ]
]

-- The object that is written for a transaction, whose times can be written and whose amount has a
-- text, is read as that transaction, but for an empty payment instrument, which is read as nil.
pub table_of-Reads :
    (formats : Formats) (t : Transaction) (amount : String)
    → FormatsLaws formats
    → Dated t
    → formats.format_float t.amount ≡ ok amount
    → Reads formats (table_of formats t amount) (canonical t)
unfolding table_of
table_of-Reads formats t amount laws (created, updated, completed) e = record {
  id = refl;
  order_id = refl;
  attempt_no = laws.parse_int-format_int t.attempt_no;
  amount = laws.parse_float-format_float t.amount amount e;
  payment_instrument = read_fields-omit_empty_fields t.payment_instrument;
  gateway = refl;
  gateway_reference_id = read_string-omit_empty t.gateway_reference_id;
  status = ap (λ s. some (text s)) (sym (text_of_status (status_text t.status)));
  spelled = ap text_status (text_of_status (status_text t.status));
  failure_reason = read_string-omit_empty t.failure_reason;
  created_at = laws.parse_time-format_time t.created_at created;
  updated_at = laws.parse_time-format_time t.updated_at updated;
  completed_at = read_pointer-omit_nil formats laws t.completed_at completed;
}

pub final_spelled :
    (status : TransactionStatus)
    → is_final status ≡ true
    → text_status (status_text status) ≡ status
final_spelled success h = refl
final_spelled failure h = refl
final_spelled pending h = cc h
final_spelled (other s) h = cc h

-- The tests of the script, on the text of a status.
pub text_is_final :
    (s : String) → (str_eq s "success" || str_eq s "failure") ≡ is_final (text_status s)
text_is_final s = elim (Bool-cases (str_eq s "pending")) [
  | inl e ↦ rw ((eq_iff s "pending").0 e) refl
  | inr e ↦ elim (Bool-cases (str_eq s "success")) [
    | inl f ↦ rw (e, f) refl
    | inr f ↦ elim (Bool-cases (str_eq s "failure")) [
      | inl g ↦ rw (e, f, g) refl
      | inr g ↦ rw (e, f, g) refl
    ]
  ]
]

pub text_is_status :
    (s : String) (status : TransactionStatus)
    → is_final status ≡ true
    → str_eq s (status_text status) ≡ status_eq (text_status s) status
text_is_status s pending h = cc h
text_is_status s (other t) h = cc h
text_is_status s success h = elim (Bool-cases (str_eq s "pending")) [
  | inl e ↦ rw ((eq_iff s "pending").0 e) refl
  | inr e ↦ elim (Bool-cases (str_eq s "success")) [
    | inl f ↦ rw (e, f) refl
    | inr f ↦ elim (Bool-cases (str_eq s "failure")) [
      | inl g ↦ rw (e, f, g) refl
      | inr g ↦ rw (e, f, g) refl
    ]
  ]
]
text_is_status s failure h = elim (Bool-cases (str_eq s "pending")) [
  | inl e ↦ rw ((eq_iff s "pending").0 e) refl
  | inr e ↦ elim (Bool-cases (str_eq s "success")) [
    | inl f ↦ rw ((eq_iff s "success").0 f) refl
    | inr f ↦ elim (Bool-cases (str_eq s "failure")) [
      | inl g ↦ rw (e, f, g) refl
      | inr g ↦ rw (e, f, g) refl
    ]
  ]
]
