-- ===== src/Posting/Book.antt =====
-- internal/erp/posting.go: bookOne and book, over the state of a run.
use integrations_challenge.Prelude.{
  ℕ, zero, suc, ◌+◌, Bool, true, false, List, [], ◌∷◌, ◌++◌, Bytes, codes, Option, none, some, ok,
  err, update, length,
}
use integrations_challenge.Prelude.Int.{ℤ, pos}
use integrations_challenge.Dates.Text.{parse_date, padded}
use integrations_challenge.Posting.{
  PostingItem, PostingResult, Document, Masters, status_posted, status_rejected,
  effective_posting_date, reject_posting,
}

abbrev pub tenant_name : Bytes
tenant_name = codes "acme-ch"

-- The part of a run's state that a posting reads and writes. `duplicate_document_attempts` is the
-- counter that IncDuplicateDocumentAttempts keeps in the metrics of the governor.
pub record Ledger : Type 0 where
  pub documents : List Document
  pub doc_by_ref : Bytes → Option ℕ
  pub doc_seq : ℕ
  pub rejections : Bytes → ℕ
  pub duplicate_document_attempts : ℕ

abbrev pub new_ledger : Ledger
new_ledger = record {
  documents = [];
  doc_by_ref = λ k. none;
  doc_seq = 0;
  rejections = λ c. 0;
  duplicate_document_attempts = 0;
}

-- dupIndexKey
abbrev pub dup_index_key : Bytes → Bytes
dup_index_key external_reference = tenant_name ++ 0x1f ∷ external_reference

-- fiscalYearOf
unfoldable pub fiscal_year_of : Bytes → ℤ
fiscal_year_of date = elim (parse_date date) [ none ↦ pos 0 | some d ↦ d.year ]

-- `l[i]`; an index past the end, which the code would panic on, gives none.
abbrev pub get_elem? {ℓ} : {A : Type ℓ} → List A → ℕ → Option A
get_elem? [] i = none
get_elem? (x ∷ xs) zero = some x
get_elem? (x ∷ xs) (suc i) = get_elem? xs i

-- The answer that names a document.
abbrev pub posted_result : Bytes → Document → Bool → PostingResult
posted_result item_key doc duplicate = record {
  item_key = item_key;
  status = status_posted;
  document_number = doc.document_number;
  fiscal_year = doc.fiscal_year;
  posting_date = doc.posting_date;
  erp_revision = doc.revision;
  idempotency_replay = false;
  duplicate = duplicate;
  code = [];
  retriable = none;
}

abbrev pub rejected_result : Bytes → Bytes → PostingResult
rejected_result item_key code = record {
  item_key = item_key;
  status = status_rejected;
  document_number = [];
  fiscal_year = pos 0;
  posting_date = [];
  erp_revision = 0;
  idempotency_replay = false;
  duplicate = false;
  code = code;
  retriable = some false;
}

-- The document of an item and a document number.
unfoldable pub new_document : PostingItem → Bytes → ℕ → Document
new_document item idempotency_key seq =
    let posting_date = effective_posting_date item in
    let year = fiscal_year_of posting_date in
    record {
      document_number = codes "AP-" ++ padded year 4 ++ b'-' ∷ padded (pos seq) 7;
      fiscal_year = year;
      posting_date = posting_date;
      revision = 1;
      tenant = tenant_name;
      external_reference = item.external_reference;
      company_code = item.company_code;
      supplier_number = item.supplier_number;
      supplier_invoice_number = item.supplier_invoice_number;
      document_type = item.document_type;
      document_date = item.document_date;
      currency = item.currency;
      gross_amount = item.gross_amount;
      vat_amount = item.vat_amount;
      po_number = item.po_number;
      cost_center = item.cost_center;
      idempotency_key = idempotency_key;
    }

-- The three ends of bookOne: a known reference, a rejection, a new document.
unfoldable pub book_duplicate : PostingItem → Document → Ledger → Ledger × PostingResult
book_duplicate item doc st = (
  record st { duplicate_document_attempts = st.duplicate_document_attempts + 1 },
  posted_result item.item_key doc true,
)

unfoldable pub book_rejected : PostingItem → Bytes → Ledger → Ledger × PostingResult
book_rejected item code st = (
  record st { rejections = update st.rejections code (st.rejections code + 1) },
  rejected_result item.item_key code,
)

unfoldable pub book_new : PostingItem → Bytes → Ledger → Ledger × PostingResult
book_new item idempotency_key st =
    let doc = new_document item idempotency_key (st.doc_seq + 1) in
    (
      record st {
        documents = st.documents ++ doc ∷ [];
        doc_by_ref =
            update st.doc_by_ref (dup_index_key item.external_reference)
              (some (length st.documents));
        doc_seq = st.doc_seq + 1;
      },
      posted_result item.item_key doc false,
    )

-- The document that the index gives for a reference: `st.documents[i]`.
unfoldable pub booked : Ledger → Bytes → Option Document
booked st reference = elim (st.doc_by_ref (dup_index_key reference)) [
  | none ↦ none
  | some i ↦ get_elem? st.documents i
]

-- bookOne
unfoldable pub book_one : Masters → PostingItem → Bytes → Ledger → Ledger × PostingResult
book_one d item idempotency_key st = elim (booked st item.external_reference) [
  | some doc ↦ book_duplicate item doc st
  | none ↦ elim (reject_posting d item) [
    | err code ↦ book_rejected item code st
    | ok u ↦ book_new item idempotency_key st
  ]
]

-- book
unfoldable pub book : Masters → List PostingItem → Bytes → Ledger → Ledger × List PostingResult
book d [] idempotency_key st = (st, [])
book d (item ∷ items) idempotency_key st =
    let (st₁, result) = book_one d item idempotency_key st in
    let (st₂, results) = book d items idempotency_key st₁ in (st₂, result ∷ results)
