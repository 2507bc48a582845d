-- ===== src/Posting/Tests.antt =====
-- Postings on concrete data, and the theorems about them applied there.
use integrations_challenge.Prelude.{
  ◌≡◌, ◌⊎◌, refl, Bool, true, false, List, [], ◌∷◌, length, Bytes, codes, bytes_eq, Option, none,
  some, Result, ok,
}
use integrations_challenge.Prelude.Int.{pos, ◌+ℤ◌}
use integrations_challenge.Text.{trim_space, sort_strings}
use integrations_challenge.Decimal.{sub, align, rescale, sub_aligned, minor_units, widen}
use integrations_challenge.Decimal.Text.{format_uint, write_digits}
use integrations_challenge.Dates.{
  days_in_month, is_leap, compare_date, days_from_civil, floor_div, day_of_era,
}
use integrations_challenge.Dates.Text.{
  compare_dates, parse_date, atoi_fixed, digits_from, make_date, padded,
}
use integrations_challenge.Money.{currency_scale}
use integrations_challenge.Governor.Inject.{apply_then_fail, signature_hash}
use integrations_challenge.Idempotency.{key_id, check, put, evict, new_store, stored_record}
use integrations_challenge.Governor.{Config, new}
use integrations_challenge.Posting.{
  PostingItem, PostingResult, Document, within_amount_tolerance, po_key, seed_po_number,
  seed_reference_number, reject_posting, posting_order, posting_cost_center, posting_amount,
  effective_posting_date,
}
use integrations_challenge.Posting.Sample.{amount, wire, item, unknown, order, masters}
use integrations_challenge.Decimal.Text.{is_empty}
use integrations_challenge.Match.{all_digits, canonical_po_number}
use integrations_challenge.Posting.Numbers.{number_part, po_key-canonical_po_number}
use integrations_challenge.Posting.Book.{
  new_ledger, book, book_one, book_new, book_rejected, book_duplicate, booked, new_document,
  fiscal_year_of,
}
use integrations_challenge.Posting.Shape.{
  PostingItemWire, decode_posting_items, wire_items, wire_item, validate_all, validate_posting_item,
  is_supplier_number_shape,
}
use integrations_challenge.Posting.Serve.{
  PostingRequest, Payload, one_result, no_result, all_results, refused, replayed, sent, internal,
  RunState, stored_answer, serve_posting, request_key, prepare, post_items, deliver, resolve_key,
  apply_fail_signature, posting_status, posting_payload,
}
use integrations_challenge.Posting.Again.{book_again, book_all, SameDocuments, AreAnsweredAgain}
use integrations_challenge.Posting.Once.{numbered}
use integrations_challenge.Posting.Resent.{serve_again}
use integrations_challenge.Posting.Runs.{new_run, IsUnlimited, serve_all, run_documents}

-- The gross amount is one minor unit above the tolerance of five percent; it is wrapped away where
-- a hundred times the amount is past an int64.
tolerance :
    (within_amount_tolerance masters item order ≡ some true)
    × (within_amount_tolerance masters (record item { gross_amount = amount 11310 }) order
        ≡ some true)
    × (within_amount_tolerance masters (record item { gross_amount = amount 11311 }) order
        ≡ some false)
    × (within_amount_tolerance masters (record item { gross_amount = amount 922337203686787 }) order
        ≡ some true)
unfolding within_amount_tolerance trim_space sub align rescale sub_aligned minor_units widen po_key
    seed_po_number
tolerance = (refl, refl, refl, refl)

-- One item, and one of an unknown supplier.
statuses : List PostingResult → List (Bytes × Bytes)
statuses [] = []
statuses (r ∷ rs) = (r.document_number, r.code) ∷ statuses rs

booked_twice :
    let first = book masters (item ∷ unknown ∷ []) (codes "k1") new_ledger in
    (statuses first.1 ≡ (codes "AP-2026-0000001", []) ∷ ([], codes "ERP_SUPPLIER_UNKNOWN") ∷ [])
    × (statuses (book masters (item ∷ []) (codes "k2") first.0).1
        ≡ (codes "AP-2026-0000001", []) ∷ [])
unfolding statuses book book_one booked book_new book_rejected book_duplicate new_document
    fiscal_year_of reject_posting posting_order posting_cost_center posting_amount
    within_amount_tolerance po_key seed_po_number seed_reference_number effective_posting_date
    compare_dates parse_date atoi_fixed digits_from make_date days_in_month is_leap compare_date
    padded format_uint trim_space sub align rescale sub_aligned minor_units widen days_from_civil
    ◌+ℤ◌ floor_div day_of_era write_digits
booked_twice = (refl, refl)

book_again_example :
    let first = book masters (item ∷ unknown ∷ []) (codes "k1") new_ledger in
    let later =
      book_all masters
        ((record unknown { supplier_number = codes "100" } ∷ [], codes "k2") ∷ [])
        first.0 in
    SameDocuments later (book masters (item ∷ unknown ∷ []) (codes "k3") later).0
    × AreAnsweredAgain first.1 (book masters (item ∷ unknown ∷ []) (codes "k3") later).1
book_again_example =
    book_again masters (item ∷ unknown ∷ []) (codes "k1") (codes "k3") new_ledger
      ((record unknown { supplier_number = codes "100" } ∷ [], codes "k2") ∷ [])

-- A governor that loses the first answer of a posting.
abbrev config : Config
config = record {
  seed = pos 6;
  quota_limit = pos 4;
  bucket_capacity = pos 2;
  refill_interval_vms = pos 10;
  chaos = true;
  permanent_fault_at = pos 2;
  permanent_fault_path = [];
  token_request_ttl = pos 2;
  token_virtual_ttl_vms = pos 50;
  rate_limit_cost_vms100 = pos 0;
}

abbrev start : RunState
start = new_run (new config)

-- A body is the reference of one item.
abbrev parse : Bytes → Bool → Result Bytes (List PostingItemWire)
parse body batch = ok (record wire { external_reference = body } ∷ [])

abbrev hash : Bytes → Bytes
hash body = body

-- An answer is the number of its document.
abbrev render : Payload → Bytes
render (one_result r) = r.document_number
render no_result = []
render (all_results b) = []

abbrev marshal : Payload → Option Bytes
marshal x = some (render x)

abbrev request : Bytes → Bytes → PostingRequest
request key body = record {
  method = codes "POST";
  path = codes "/v1/postings";
  json_content = true;
  body = some body;
  idempotency_header = key;
  batch = false;
}

abbrev document : Document
document =
    new_document (record item { item_key = codes "INV-3"; external_reference = codes "INV-3" })
      (codes "k2") 2

-- The answer is lost, and the number of the document is then replayed.
lost_and_replayed :
    let first =
      serve_posting masters parse hash marshal (request (codes "k1") (codes "INV-1")) start in
    let second =
      serve_posting masters parse hash marshal (request (codes "k1") (codes "INV-1")) first.0 in
    (first.1 ≡ refused internal)
    × (second.1 ≡ replayed (stored_answer 200 (codes "AP-2026-0000001") (codes "INV-1")))
unfolding serve_posting prepare decode_posting_items wire_items wire_item validate_all
    validate_posting_item is_supplier_number_shape currency_scale post_items deliver resolve_key
    check put evict new_store stored_record apply_then_fail apply_fail_signature posting_status
    posting_payload book book_one booked book_new book_rejected book_duplicate new_document
    fiscal_year_of reject_posting posting_order posting_cost_center posting_amount
    within_amount_tolerance po_key seed_po_number seed_reference_number effective_posting_date
    compare_dates parse_date atoi_fixed digits_from make_date days_in_month is_leap compare_date
    padded format_uint trim_space sub align rescale sub_aligned minor_units widen days_from_civil
    ◌+ℤ◌ floor_div day_of_era write_digits new signature_hash sort_strings
lost_and_replayed = (refl, refl)

run_documents_example :
    let ledger =
      (serve_all masters parse hash marshal
        (request (codes "k1") (codes "INV-1") ∷ request (codes "k2") (codes "INV-3") ∷ [])
        start).ledger in
    (document.document_number ≡ numbered 1 document)
    × (bytes_eq document.external_reference document.external_reference ≡ true)
    × (ledger.doc_seq ≡ length ledger.documents)
unfolding serve_all serve_posting prepare decode_posting_items wire_items wire_item validate_all
    validate_posting_item is_supplier_number_shape currency_scale post_items deliver resolve_key
    check put evict new_store stored_record apply_then_fail apply_fail_signature posting_status
    posting_payload book book_one booked book_new book_rejected book_duplicate new_document
    fiscal_year_of reject_posting posting_order posting_cost_center posting_amount
    within_amount_tolerance po_key seed_po_number seed_reference_number effective_posting_date
    compare_dates parse_date atoi_fixed digits_from make_date days_in_month is_leap compare_date
    padded format_uint trim_space sub align rescale sub_aligned minor_units widen days_from_civil
    ◌+ℤ◌ floor_div day_of_era write_digits new signature_hash sort_strings
run_documents_example =
    run_documents masters parse hash marshal
      (request (codes "k1") (codes "INV-1") ∷ request (codes "k2") (codes "INV-3") ∷ [])
      (new config) 1 1 document document refl refl

abbrev items : List PostingItem
items = record item { item_key = codes "INV-1"; external_reference = codes "INV-1" } ∷ []

ready :
    prepare masters parse hash marshal (request (codes "k1") (codes "INV-1"))
    ≡ ok (record { key = codes "k1"; body = codes "INV-1"; items = items })
unfolding prepare decode_posting_items wire_items wire_item validate_all validate_posting_item
    is_supplier_number_shape currency_scale trim_space sub align rescale sub_aligned minor_units
    widen parse_date atoi_fixed digits_from make_date days_in_month is_leap
ready = refl

unlimited : IsUnlimited start.idem
unfolding new_store
unlimited = refl

unstored : start.idem.recs (key_id (request_key (request (codes "k1") (codes "INV-1")))) ≡ none
unfolding new_store
unstored = refl

apart :
    bytes_eq
      (key_id (request_key (request (codes "k1") [])))
      (key_id (request_key (request (codes "k2") [])))
    ≡ false
unfolding trim_space
apart = refl

serve_again_example :
    let first =
      serve_posting masters parse hash marshal (request (codes "k1") (codes "INV-1")) start in
    let later =
      serve_all masters parse hash marshal (request (codes "k2") (codes "INV-3") ∷ []) first.0 in
    let (ledger, results) = book masters items (codes "k1") new_ledger in
    (first.0.ledger ≡ ledger)
    × ((first.1
          ≡ sent (posting_status results false) (render (posting_payload results false false)))
        ⊎ (first.1 ≡ refused internal))
    × (serve_posting masters parse hash marshal (request (codes "k1") (codes "INV-1")) later ≡ (
      later,
      replayed (
          stored_record (
            stored_answer
              (posting_status results false)
              (render (posting_payload results false true))
              (codes "INV-1"))),
    ))
serve_again_example =
    serve_again masters parse hash marshal (request (codes "k1") (codes "INV-1"))
      (record { key = codes "k1"; body = codes "INV-1"; items = items }) render (λ x. refl) start
      (request (codes "k2") (codes "INV-3") ∷ []) (request (codes "k1") (codes "INV-1"))
      (record { key = codes "k1"; body = codes "INV-1"; items = items }) unlimited ready unstored
      (apart, tt) ready refl

number_digits :
    (all_digits (number_part (codes " PO-0045")) ≡ true)
    × (is_empty (number_part (codes " PO-0045")) ≡ false)
unfolding trim_space
number_digits = (refl, refl)

po_key-canonical_po_number_example :
    po_key (codes " PO-0045") ≡ canonical_po_number (codes " PO-0045")
po_key-canonical_po_number_example =
    po_key-canonical_po_number (codes " PO-0045") number_digits.0 number_digits.1

-- The two differ on a number that is no digits.
apart_numbers :
    (po_key (codes "PO-A7") ≡ codes "A7") × (canonical_po_number (codes "PO-A7") ≡ codes "PO-A7")
unfolding po_key seed_po_number canonical_po_number trim_space
apart_numbers = (refl, refl)
